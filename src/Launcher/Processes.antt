-- ===== src/Launcher/Processes.antt =====
-- The processes that the launcher starts (main.py, `_spawn`, `run` and `migrate`).
use Prim.Native.String.{String}
use workfront_system.Base.{ℕ, List, [], ◌∷◌, map}
use workfront_system.Config.{Environ}
use workfront_system.Launcher.{Service, Command, migrates, runs, refuses, command, launch_env}

-- An argument of a process: a text, or the text of a number.
pub data Argument : Type 0 where
  text : String → Argument
  str : ℕ → Argument

pub record Process : Type 0 where
  pub arguments : List Argument
  pub cwd : String
  pub env : Environ

-- The interpreter, and the directories of the repository and of wf_core.
module _ (executable root wf_core : String) where
  abbrev pub spawn : Environ → Service → Process
  spawn env service = record {
    arguments =
        text executable
        ∷ text "-m"
        ∷ text "uvicorn"
        ∷ text service.import_str
        ∷ text "--host"
        ∷ text "127.0.0.1"
        ∷ text "--port"
        ∷ str service.port
        ∷ [];
    cwd = root;
    env = env;
  }

  abbrev pub run_processes : Environ → List Service → List Process
  run_processes environ names = let env = launch_env root wf_core environ in map (spawn env) names

  abbrev pub migrate : Environ → Process
  migrate environ = record {
    arguments = text executable ∷ text "-m" ∷ text "alembic" ∷ text "upgrade" ∷ text "head" ∷ [];
    cwd = wf_core;
    env = launch_env root wf_core environ;
  }

  abbrev pub start : Environ → Command → List Process
  start environ migrates = migrate environ ∷ []
  start environ (runs names) = run_processes environ names
  start environ refuses = []

  -- main: what it starts for its arguments
  abbrev pub started : Environ → List String → List Process
  started environ args = start environ (command args)
