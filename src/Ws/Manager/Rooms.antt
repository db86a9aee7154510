-- ===== src/Ws/Manager/Rooms.antt =====
-- Who is subscribed after a push (`push_local` and `disconnect` of services/api/src/ws.py).
use workfront_system.Base.{
  ℕ, ◌≡◌, refl, ap, ◌∙◌, Bool, not, ◌&&◌, List, [], ◌∷◌, arith, ◌==◌, contains, contains-filter,
}
use workfront_system.Ws.Manager.{
  ConnectionManager, discard, disconnect, dead, drop_dead, push_local,
}

pub contains-discard :
    (xs : List ℕ) (ws a : ℕ) → contains (discard xs ws) a ≡ (contains xs a && not (a == ws))
contains-discard xs ws a = contains-filter (λ x. not (x == ws)) xs a

drop_dead-rooms :
    (sockets : List ℕ) (m : ConnectionManager) (p a : ℕ)
    → contains ((drop_dead m sockets).rooms p) a
      ≡ (contains (m.rooms p) a && not (contains sockets a))
unfolding drop_dead disconnect
drop_dead-rooms [] m p a = ground arith
drop_dead-rooms (ws ∷ sockets) m p a =
    ground (arith, drop_dead-rooms sockets (disconnect m ws) p a, contains-discard (m.rooms p) ws a)

pub drop_dead-seq : (sockets : List ℕ) (m : ConnectionManager) → (drop_dead m sockets).seq ≡ m.seq
unfolding drop_dead disconnect
drop_dead-seq [] m = refl
drop_dead-seq (ws ∷ sockets) m = drop_dead-seq sockets (disconnect m ws)

-- A push reaches exactly the sockets subscribed to the project whose send succeeds. Afterwards a
-- subscribed socket whose send failed is in no room, every other socket is in the rooms where the
-- coroutines that ran meanwhile left it, and no sequence number has changed by the push.
pub push_local-rooms :
    (m : ConnectionManager) (during : ConnectionManager → ConnectionManager) (sends : ℕ → Bool)
    (project_id : ℕ)
    → ((ws : ℕ)
        → contains (push_local m during sends project_id).1 ws
          ≡ (contains (m.rooms project_id) ws && sends ws))
      × ((p ws : ℕ)
          → contains ((push_local m during sends project_id).0.rooms p) ws ≡ (
              contains ((during m).rooms p) ws
              && not (contains (m.rooms project_id) ws && not (sends ws))))
      × ((push_local m during sends project_id).0.seq ≡ (during m).seq)
unfolding push_local
push_local-rooms m during sends project_id =
    let room = m.rooms project_id in
    (
      λ ws. contains-filter sends room ws,
      λ p ws.
          drop_dead-rooms (dead sends room) (during m) p ws
          ∙ ap (λ b. contains ((during m).rooms p) ws && not b)
              (contains-filter (λ x. not (sends x)) room ws),
      drop_dead-seq (dead sends room) (during m),
    )
