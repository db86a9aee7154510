-- ===== src/Launcher/Connections.antt =====
-- Which database the processes of the launcher (main.py) use: the services through
-- libs/wf_core/wf_core/db.py, and alembic through libs/wf_core/migrations/env.py.
use Prim.Native.String.{String}
use workfront_system.Base.{◌≡◌, true, false, Outcome, ok, ℤ}
use workfront_system.Config.{Environ, read_settings}
use workfront_system.Store.Engines.{session_factory, async_session_factory, utc_options}
use workfront_system.Schema.Environment.{run_migrations_offline, run_migrations_online, configure}

-- All that a process with this environment connects to: the sessions of the services, synchronous and not, and
-- alembic, which migrates or prints the tables of models.py.
pub record Connects (int : String → Outcome ℤ) (main_option : String → Outcome String)
    (pool_size max_overflow : ℤ) (database_url : String) (env : Environ) : Type 0 where
  pub sessions : session_factory (read_settings env) ≡ record {
    bind = record {
      url = database_url;
      pool_pre_ping = true;
      future = true;
      options = utc_options;
    };
    expire_on_commit = false;
  }
  pub async_sessions :
      async_session_factory int (read_settings env) env
      ≡ ok (record {
        bind = record {
          url = database_url;
          pool_pre_ping = true;
          pool_size = pool_size;
          max_overflow = max_overflow;
          options = utc_options;
        };
        expire_on_commit = false;
      })
  pub offline :
      configure main_option true env ≡ ok (run_migrations_offline main_option database_url)
  pub online : configure main_option false env ≡ ok (run_migrations_online main_option database_url)
