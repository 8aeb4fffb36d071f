-- ===== src/App.antt =====
-- internal/app/app.go: the application and how it is put together. What
-- opening the database gives is a parameter, and so is OpenTelemetry's library. The logger is left out.
pub mod Responses
pub mod Query
pub mod Writing
pub mod Handlers
pub mod Routes
pub mod Tracing
pub mod Returning
pub mod Replies
pub mod Answers
pub mod Keeping
pub mod Safety
pub mod Wiring
pub mod Limits
use insider_one.Prelude.{String, Option, some, List, [], ◌∷◌}
use insider_one.Config.{Config, Getenv, load}
use insider_one.Domain.{Time}
use insider_one.Logging as Loggers
use insider_one.Provider
use insider_one.Runtime.{Error, Env, Result, Fallible, pure, ◌>>=◌, lift, clock}
use insider_one.Service as Services
use insider_one.Service.{Service, claim_limit, rate_limit}
use insider_one.Telemetry as Telemetries
use insider_one.Telemetry.{Telemetry, Sdk, Call}
use insider_one.Worker as Workers
use insider_one.Worker.{Worker}

-- The application, with the workers that it has started.
pub record App : Type 0 where
  pub config : Config
  pub service : Service
  pub telemetry : Telemetry
  pub started_at : Time
  pub workers : List Worker

-- The service of a configuration.
unfoldable pub service_of : Config → Service
service_of cfg =
    Services.new
      (Provider.new_with_endpoints (
        ("default", cfg.provider_url)
        ∷ ("sms", cfg.sms_provider_url)
        ∷ ("email", cfg.email_provider_url)
        ∷ ("push", cfg.push_provider_url)
        ∷ []))
      (claim_limit cfg.worker_claim_limit ∷ rate_limit cfg.rate_limit_per_second ∷ [])

module _ (env : Env) (sdk : Sdk) (database : Result (Unit {0})) where
  -- `NewWithConfig`
  unfoldable pub new_with_config : Config → Fallible App
  unfolding service_of
  new_with_config cfg = do
    telemetry_state ← lift (Telemetries.new sdk cfg).0
    repo ← lift database
    now ← clock env
    pure (record {
      config = cfg;
      service = service_of cfg;
      telemetry = telemetry_state;
      started_at = now;
      workers = Workers.start (Workers.new (cfg.worker_concurrency ∷ []));
    })

  -- `New`, with `%q` as a parameter.
  unfoldable pub new : (String → String) → Getenv → Fallible App
  unfolding new_with_config
  new quote getenv = do
    logger ← lift (Loggers.new quote (load getenv).log_level)
    new_with_config (load getenv)

-- `Close` after `a.cancel()`, given what closing the repository returns.
unfoldable pub close : Sdk → (repo_close : Option Error) → App → Option Error × List Call
close sdk repo_close a = (repo_close, (Telemetries.close sdk (some a.telemetry)).1)
