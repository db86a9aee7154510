-- ===== src/Ws/Relay/Published.antt =====
-- At least once: what the bridge (services/ws_fanout/src/main.py) has published, over its restarts.
use workfront_system.Base.{ℕ, ◌<◌, ◌≤◌, ◌≡◌, Option, some, List, Memᴰ, get_elem?}
use mathlib.Core.List.Memᴰ
use workfront_system.Ws.Fanout.{Record, FanoutEvent, fanout_event}
use workfront_system.Ws.Relay.{Bridge}

module _ {D : Type 0} (log : List (Record (Option D))) (start : ℕ) where
  -- The event of the record at an offset: on the channel of its key, with its value and its offset.
  pub record IsEventOf (offset : ℕ) (event : FanoutEvent D) : Type 0 where
    pub msg : Record (Option D)
    pub payload : D
    pub now : ℕ
    pub found : get_elem? log offset ≡ some msg
    pub decoded : msg.value ≡ some payload
    pub is : event ≡ fanout_event offset now (record { key = msg.key; value = payload })

  -- Every record from `start` up to the next poll is published, and nothing else is.
  pub record Published (b : Bridge D) : Type 0 where
    pub begins : start ≤ b.committed
    pub behind : b.committed ≤ b.position
    pub complete :
        (i : ℕ) (msg : Record (Option D))
        → get_elem? log i ≡ some msg
        → start ≤ i
        → i < b.position
        → (event : FanoutEvent D) × IsEventOf i event × Memᴰ event b.published
    pub sound : (event : FanoutEvent D) → Memᴰ event b.published → (i : ℕ) × IsEventOf i event
