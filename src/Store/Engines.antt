-- ===== src/Store/Engines.antt =====
-- The engines and session factories of libs/wf_core/wf_core/db.py. `lru_cache` makes each at the
-- first call, and gives the same one afterwards: the settings that it is made of never change.
use Prim.Native.String.{String}
use workfront_system.Base.{Bool, true, false, Outcome, ok, ◌>>=◌, ℤ}
use workfront_system.Config.{Environ, Settings, get_env}

-- What create_engine is given.
pub record Engine : Type 0 where
  pub url : String
  pub pool_pre_ping : Bool
  pub future : Bool
  pub options : String

-- What create_async_engine is given.
pub record AsyncEngine : Type 0 where
  pub url : String
  pub pool_pre_ping : Bool
  pub pool_size : ℤ
  pub max_overflow : ℤ
  pub options : String

-- What a session factory is given.
pub record Factory (Bind : Type 0) : Type 0 where
  pub bind : Bind
  pub expire_on_commit : Bool

-- _UTC_CONNECT_ARGS
abbrev pub utc_options : String
utc_options = "-c timezone=utc"

abbrev pub get_engine : Settings → Engine
get_engine settings = record {
  url = settings.database_url;
  pool_pre_ping = true;
  future = true;
  options = utc_options;
}

abbrev pub session_factory : Settings → Factory Engine
session_factory settings = record { bind = get_engine settings; expire_on_commit = false }

-- `int` of Python, on the texts of the two variables.
module _ (int : String → Outcome ℤ) where
  abbrev pub get_async_engine : Settings → Environ → Outcome AsyncEngine
  get_async_engine settings env = do
    pool_size ← int (get_env env "DB_POOL_SIZE" "40")
    max_overflow ← int (get_env env "DB_MAX_OVERFLOW" "20")
    ok (record {
      url = settings.database_url;
      pool_pre_ping = true;
      pool_size = pool_size;
      max_overflow = max_overflow;
      options = utc_options;
    })

  abbrev pub async_session_factory : Settings → Environ → Outcome (Factory AsyncEngine)
  async_session_factory settings env = do
    engine ← get_async_engine settings env
    ok (record { bind = engine; expire_on_commit = false })
