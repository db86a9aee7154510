-- ===== src/Launcher.antt =====
-- main.py, the local launcher: which services an argument starts, with which environment, and the
-- loop that watches them. Processes are numbered in the order in which they were started
-- (`Processes`); `Connections` is what those services connect to.
pub mod Environment
pub mod Supervision
pub mod Processes
pub mod Connections
use Prim.Native.String.{String, ◌++◌}
use text.Mathlib.Text.{◌==◌ as str_eq}
use workfront_system.Config.{Environ, get_env}
use workfront_system.Base.{
  ℕ, suc, Bool, true, false, not, Option, some, none, List, [], ◌∷◌, map, filter, if◌then◌else◌,
  ◌==◌, ℤ, pos,
}

-- SERVICES: the import string and the port of each name
pub record Service : Type 0 where
  pub name : String
  pub import_str : String
  pub port : ℕ

abbrev pub services : List Service
services =
    record { name = "api"; import_str = "services.api.src.main:app"; port = 8000 }
    ∷ record {
      name = "graph_service";
      import_str = "services.graph_service.src.main:app";
      port = 8001;
    }
    ∷ record { name = "worker"; import_str = "services.worker.src.main:app"; port = 8002 }
    ∷ record { name = "projector"; import_str = "services.projector.src.main:app"; port = 8003 }
    ∷ []

-- What `main` does with the arguments behind the program's name.
pub data Command : Type 0 where
  migrates : Command
  runs : List Service → Command
  refuses : Command

abbrev pub named : String → List Service
named target = filter (λ s. str_eq s.name target) services

unfoldable pub command : List String → Command
command [] = runs services
command (arg ∷ _) =
    if str_eq arg "migrate"
    then migrates
    else (elim (named arg) [ [] ↦ refuses | s ∷ _ ↦ runs (s ∷ []) ])

abbrev pub put_env : Environ → String → String → Environ
put_env env key value k = if str_eq key k then some value else env k

-- env.setdefault(…)
abbrev pub set_default : Environ → String → String → Environ
set_default env key value = elim (env key) [ none ↦ put_env env key value | some _ ↦ env ]

abbrev pub default_db : String
default_db = "postgresql+psycopg://amadoyan@localhost:5432/workfront_core"

-- _env, with the directories of the repository and of wf_core
unfoldable pub launch_env : String → String → Environ → Environ
launch_env root wf_core env =
    let env1 = set_default env "DATABASE_URL" default_db in
    let env2 = set_default env1 "KAFKA_BROKERS" "localhost:9094" in
    let env3 = set_default env2 "REDIS_URL" "redis://localhost:6379" in
    put_env env3 "PYTHONPATH" (root ++ ":" ++ wf_core ++ ":" ++ get_env env3 "PYTHONPATH" "")

-- One pass over the processes: the first that has exited, with its code. A poll gives the code.
abbrev pub first_exit : (ℕ → Option ℤ) → List ℕ → Option (ℕ × ℤ)
first_exit poll [] = none
first_exit poll (p ∷ procs) = elim (poll p) [
  | some code ↦ some (p, code)
  | none ↦ first_exit poll procs
]

-- How a run ends: with the code, and the processes that are terminated.
pub record Ending : Type 0 where
  pub code : ℤ
  pub terminated : List ℕ

-- The loop of `run`, over what the processes answer in each pass; `none` if it still runs.
unfoldable pub supervise : List ℕ → List (ℕ → Option ℤ) → Option Ending
supervise procs [] = none
supervise procs (poll ∷ passes) = elim (first_exit poll procs) [
  | some (p, code) ↦ some (record { code = code; terminated = filter (λ q. not (q == p)) procs })
  | none ↦ supervise procs passes
]

-- The processes of a run, one for each service.
abbrev pub process_ids : ℕ → List Service → List ℕ
process_ids next [] = []
process_ids next (_ ∷ rest) = next ∷ process_ids (suc next) rest

-- main: the exit code, given that of alembic and the passes over the processes
unfoldable pub main : List String → ℤ → List (ℕ → Option ℤ) → Option ℤ
unfolding command supervise
main args migrated passes = elim (command args) [
  | migrates ↦ some migrated
  | refuses ↦ some (pos 2)
  | runs names ↦ elim (supervise (process_ids 0 names) passes) [
    | none ↦ none
    | some ending ↦ some ending.code
  ]
]
