-- ===== src/Tests/Launches.antt =====
-- Runs of the local launcher (main.py), and its theorems at them.
use workfront_system.Base.{
  ℕ, ◌≡◌, refl, Option, some, none, List, [], ◌∷◌, if◌then◌else◌, ◌==◌, true, false, ◌⊎◌, ℤ, pos,
  Outcome, ok, err, key_error, negsuc,
}
use Prim.Native.String.{String}
use text.Mathlib.Text.{◌==◌ as str_eq}
use workfront_system.Config.{Environ, read_settings}
use workfront_system.Schema.Environment.{configure, require_env}
use workfront_system.Launcher.Processes.{Process, migrate}
use workfront_system.Launcher.{Ending, put_env, supervise, process_ids, services, command, main}
use workfront_system.Launcher.Supervision.{any_exit, Stopped, supervise_ends}

-- The user has a Redis of their own.
abbrev shell : Environ
shell = put_env (λ _. none) "REDIS_URL" "redis://other:6379"

-- The cascade is inline unless the variable says otherwise; the case of its letters is ignored.
inline_default : (read_settings shell).inline_cascade ≡ true
inline_default = refl

inline_upper : (read_settings (put_env shell "INLINE_CASCADE" "TRUE")).inline_cascade ≡ true
inline_upper = refl

inline_off : (read_settings (put_env shell "INLINE_CASCADE" "0")).inline_cascade ≡ false
inline_off = refl

-- All four run, then the worker is killed by signal 9.
abbrev killed : ℕ → Option ℤ
killed p = if p == 2 then some (negsuc 8) else none

abbrev passes : List (ℕ → Option ℤ)
passes = (λ _. none) ∷ killed ∷ []

supervised :
    supervise (process_ids 0 services) passes
    ≡ some (record { code = negsuc 8; terminated = 0 ∷ 1 ∷ 3 ∷ [] })
unfolding supervise
supervised = refl

unknown_target : main ("gateway" ∷ []) (pos 0) passes ≡ some (pos 2)
unfolding main command
unknown_target = refl

supervise_ends_example :
    ((any_exit (process_ids 0 services) passes ≡ false)
      × (supervise (process_ids 0 services) passes ≡ none))
    ⊎ ((any_exit (process_ids 0 services) passes ≡ true)
        × ((e : Ending) × (supervise (process_ids 0 services) passes ≡ some e)
            × Stopped (process_ids 0 services) passes e))
supervise_ends_example = supervise_ends (process_ids 0 services) passes

abbrev int_of : String → Outcome ℤ
int_of text = if str_eq text "40" then ok (pos 40) else ok (pos 20)

abbrev migrating : Process
migrating = migrate "python" "/repo" "/repo/libs/wf_core" shell

-- Without the launcher, the migrations need the variable that the services have a default for.
unset : configure (λ text. ok text) false (λ _. none) ≡ err key_error
unfolding configure require_env
unset = refl
