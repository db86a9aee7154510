-- ===== src/Ws/Subscriber/Recovery.antt =====
-- When the subscriber (services/api/src/main.py) ends, and what it does after an exception.
use mathlib.Core.List.{append_assoc}
use workfront_system.Base.{
  ℕ, ◌≡◌, refl, sym, ap, ◌∙◌, Bool, true, false, ◌||◌, List, [], ◌∷◌, ◌++◌, arith,
}
use workfront_system.Ws.Manager.{ConnectionManager}
use workfront_system.Ws.Fanout.{FanoutEvent, push_published}
use workfront_system.Ws.Subscriber.{
  Phase, connecting, listening, over, Subscriber, Happening, waits, subscribes, gets_other, arrives,
  raises, cancelled, Push, begin, subscribed, reconnecting, receive, step, listen, lifespan,
}

abbrev pub is_cancelled : {D : Type 0} → List (Happening D) → Bool
is_cancelled [] = false
is_cancelled (cancelled ∷ happenings) = true
is_cancelled (waits others ∷ happenings) = is_cancelled happenings
is_cancelled (subscribes ∷ happenings) = is_cancelled happenings
is_cancelled (gets_other ∷ happenings) = is_cancelled happenings
is_cancelled (arrives during sends event ∷ happenings) = is_cancelled happenings
is_cancelled (raises ∷ happenings) = is_cancelled happenings

abbrev pub is_over : Phase → Bool
is_over connecting = false
is_over listening = false
is_over over = true

subscribed-is_over : (p : Phase) → is_over (subscribed p) ≡ is_over p
subscribed-is_over connecting = refl
subscribed-is_over listening = refl
subscribed-is_over over = refl

reconnecting-is_over : (p : Phase) → is_over (reconnecting p) ≡ is_over p
reconnecting-is_over connecting = refl
reconnecting-is_over listening = refl
reconnecting-is_over over = refl

listen-is_over :
    {D : Type 0} (happenings : List (Happening D)) (s : Subscriber)
    → is_over (listen s happenings).0.phase ≡ (is_over s.phase || is_cancelled happenings)
unfolding listen step
listen-is_over [] s = ground arith
listen-is_over (waits others ∷ happenings) s =
    listen-is_over happenings (record s { manager = others s.manager })
listen-is_over (subscribes ∷ happenings) s = ground (
  arith,
  subscribed-is_over s.phase,
  listen-is_over happenings (record s { phase = subscribed s.phase }),
)
listen-is_over (gets_other ∷ happenings) s = listen-is_over happenings s
listen-is_over (arrives during sends event ∷ happenings) s =
    listen-is_over happenings
      (record s { manager = (receive s.phase s.manager during sends event).0 })
listen-is_over (raises ∷ happenings) s = ground (
  arith,
  reconnecting-is_over s.phase,
  listen-is_over happenings (record s { phase = reconnecting s.phase }),
)
listen-is_over (cancelled ∷ happenings) s =
    ground (arith, listen-is_over happenings (record s { phase = over }))

listen-append :
    {D : Type 0} (first second : List (Happening D)) (s : Subscriber)
    → listen s (first ++ second) ≡ (
      (listen (listen s first).0 second).0,
      (listen s first).1 ++ (listen (listen s first).0 second).1,
    )
unfolding listen
listen-append [] second s = refl
listen-append (h ∷ first) second s =
    let now = step s h in
    let later = listen now.0 first in
    rw (listen-append first second now.0, append_assoc now.1 later.1 (listen later.0 second).1)

-- Out of a phase that is not over, an exception leads back to a subscription.
after_exception : (p : Phase) → is_over p ≡ false → subscribed (reconnecting p) ≡ listening
after_exception connecting h = refl
after_exception listening h = refl
after_exception over h = cc

recover :
    {D : Type 0} (s : Subscriber) (during : ConnectionManager → ConnectionManager)
    (sends : ℕ → Bool) (event : FanoutEvent D)
    → is_over s.phase ≡ false
    → listen s (raises ∷ subscribes ∷ arrives during sends event ∷ []) ≡ (
      record { phase = listening; manager = (push_published s.manager during sends event).0 },
      record { event = event; sockets = (push_published s.manager during sends event).1 } ∷ [],
    )
unfolding listen step receive
recover {D} s during sends event alive =
    ap
      (λ p. (
        record { phase = p; manager = (receive p s.manager during sends event).0 },
        (receive p s.manager during sends event).1 ++ [],
      ))
      (after_exception s.phase alive)

cancelled_last :
    {D : Type 0} (happenings : List (Happening D))
    → is_cancelled (happenings ++ cancelled ∷ []) ≡ true
cancelled_last [] = refl
cancelled_last (waits others ∷ happenings) = cancelled_last happenings
cancelled_last (subscribes ∷ happenings) = cancelled_last happenings
cancelled_last (gets_other ∷ happenings) = cancelled_last happenings
cancelled_last (arrives during sends event ∷ happenings) = cancelled_last happenings
cancelled_last (raises ∷ happenings) = cancelled_last happenings
cancelled_last (cancelled ∷ happenings) = refl

-- With the redis package, the subscriber has ended exactly when it was cancelled, whatever else was
-- raised; without it, it has ended from the start. When the app has shut down it has ended.
pub listen_ends :
    {D : Type 0} (m : ConnectionManager) (happenings : List (Happening D))
    → (is_over (listen (begin true m) happenings).0.phase ≡ is_cancelled happenings)
      × (is_over (listen (begin false m) happenings).0.phase ≡ true)
      × ((redis_installed : Bool) → is_over (lifespan redis_installed m happenings).0.phase ≡ true)
unfolding lifespan
listen_ends m happenings = (
  listen-is_over happenings (begin true m),
  listen-is_over happenings (begin false m),
  λ redis_installed. ground (
    arith,
    cancelled_last happenings,
    listen-is_over (happenings ++ cancelled ∷ []) (begin redis_installed m),
  ),
)

-- As long as the subscriber was not cancelled, an exception at any point is followed by a new
-- attempt: once that has subscribed, the next event is pushed as `push_published` does, after
-- everything that was pushed before.
pub listen-recovers :
    {D : Type 0} (m : ConnectionManager) (happenings : List (Happening D))
    (during : ConnectionManager → ConnectionManager) (sends : ℕ → Bool) (event : FanoutEvent D)
    {before : Subscriber} {pushed : List (Push D)}
    → is_cancelled happenings ≡ false
    → listen (begin true m) happenings ≡ (before, pushed)
    → listen (begin true m) (happenings ++ raises ∷ subscribes ∷ arrives during sends event ∷ [])
      ≡ (
        record {
          phase = listening;
          manager = (push_published before.manager during sends event).0;
        },
        pushed
            ++ record {
              event = event;
              sockets = (push_published before.manager during sends event).1;
            }
              ∷ [],
      )
listen-recovers m happenings during sends event {before} {pushed} alive h =
    let running : is_over before.phase ≡ false =
      ap (λ x. is_over x.0.phase) (sym h) ∙ listen-is_over happenings (begin true m) ∙ alive in
    listen-append happenings (raises ∷ subscribes ∷ arrives during sends event ∷ []) (begin true m)
    ∙ rw (h, recover before during sends event running)
