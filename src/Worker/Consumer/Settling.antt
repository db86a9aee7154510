-- ===== src/Worker/Consumer/Settling.antt =====
-- How the try statement of services/worker/src/consumer.py ends, outcome by outcome.
use workfront_system.Base.{
  ℕ, ◌≡◌, refl, Bool, true, false, ◌⊎◌, inl, inr, List, Error, ok, err, key_error, overflow_error,
  dependency_cycle, out_of_fuel, stale_data_error, integrity_error, dbapi_error, attribute_error,
  value_error, http_exception,
}
use workfront_system.Store.Models.{ChangePayload}
use workfront_system.Worker.Consumer.{Message, Consumer, Calls, commit_offset, dead_letter, settle}

abbrev pub is_stale : Error → Bool
is_stale stale_data_error = true
is_stale _ = false

pub settle-ok :
    {State : Type 0} (c : Consumer State) (offset : ℕ) (msg : Message) (calls : Calls)
    (changes : List ChangePayload)
    → settle c offset msg calls (ok changes)
      ≡ commit_offset c offset calls.commit
          (dead_letter c offset msg calls.letter calls.last_commit)
unfolding settle
settle-ok c offset msg calls changes = refl

pub settle-err :
    {State : Type 0} (x : Error)
    → ((x ≡ stale_data_error)
        × ((c : Consumer State) (offset : ℕ) (msg : Message) (calls : Calls)
            → settle c offset msg calls (err x) ≡ record c { position = offset }))
      ⊎ ((is_stale x ≡ false)
          × ((c : Consumer State) (offset : ℕ) (msg : Message) (calls : Calls)
              → settle c offset msg calls (err x)
                ≡ dead_letter c offset msg calls.letter calls.last_commit))
unfolding settle
settle-err stale_data_error = inl (refl, λ c offset msg calls. refl)
settle-err key_error = inr (refl, λ c offset msg calls. refl)
settle-err overflow_error = inr (refl, λ c offset msg calls. refl)
settle-err dependency_cycle = inr (refl, λ c offset msg calls. refl)
settle-err out_of_fuel = inr (refl, λ c offset msg calls. refl)
settle-err integrity_error = inr (refl, λ c offset msg calls. refl)
settle-err dbapi_error = inr (refl, λ c offset msg calls. refl)
settle-err value_error = inr (refl, λ c offset msg calls. refl)
settle-err attribute_error = inr (refl, λ c offset msg calls. refl)
settle-err (http_exception status) = inr (refl, λ c offset msg calls. refl)
