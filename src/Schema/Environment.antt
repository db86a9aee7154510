-- ===== src/Schema/Environment.antt =====
-- libs/wf_core/migrations/env.py: what alembic is told to migrate, and where.
use Prim.Native.Char.{code}
use Prim.Native.String.{String, [], ◌∷◌}
use workfront_system.Base.{
  Bool, true, false, ◌||◌, ◌==◌, some, none, List, if◌then◌else◌, Outcome, ok, err, key_error,
  ◌>>=◌,
}
use workfront_system.Config.{Environ}
use workfront_system.Schema.Operations.{Table}
use workfront_system.Schema.Declared.{declared}

-- What the context is configured with: a URL whose SQL is printed, or a connection that no pool
-- keeps.
pub data Target : Type 0 where
  url : String → (literal_binds : Bool) → (paramstyle : String) → Target
  connection : String → (pooled : Bool) → Target

pub record Migration : Type 0 where
  pub target : Target
  pub target_metadata : List Table

-- os.environ[key]
unfoldable pub require_env : Environ → String → Outcome String
require_env env key = elim (env key) [ none ↦ err key_error | some value ↦ ok value ]

abbrev pub has_percent : String → Bool
has_percent [] = false
has_percent (c ∷ text) = code c == 37 || has_percent text

-- `main_option` is what alembic's configuration, a ConfigParser, gives back for a value that it is
-- given, or the exception that it raises: a percent sign starts an interpolation.
module _ (main_option : String → Outcome String) where
  abbrev pub run_migrations_offline : String → Migration
  run_migrations_offline sqlalchemy_url = record {
    target = url sqlalchemy_url true "named";
    target_metadata = declared;
  }

  abbrev pub run_migrations_online : String → Migration
  run_migrations_online sqlalchemy_url = record {
    target = connection sqlalchemy_url false;
    target_metadata = declared;
  }

  unfoldable pub configure : (is_offline_mode : Bool) → Environ → Outcome Migration
  configure is_offline_mode env = do
    database_url ← require_env env "DATABASE_URL"
    sqlalchemy_url ← main_option database_url
    ok (
        if is_offline_mode
        then run_migrations_offline sqlalchemy_url
        else run_migrations_online sqlalchemy_url)
