-- ===== src/App/Wiring.antt =====
-- internal/app/app.go, `New` and `NewWithConfig`: what the parts are made with.
use insider_one.Prelude.{◌<◌, true, String, ◌≡◌, refl, ◌↔◌, sym, arith, [], ◌∷◌}
use insider_one.Prelude.Int.{ℤ, pos, negsuc, pos_part, ltb_ℤ}
use insider_one.App.{App, service_of, new_with_config, new}
use insider_one.Config.{Config, Getenv, load}
use insider_one.Config.Settings.{IsPositive, load-IsPositive}
use insider_one.Logging as Loggers
use insider_one.Runtime.{Env, World, Result, ok, lift, clock}
use insider_one.Telemetry as Telemetries
use insider_one.Telemetry.{Sdk, unless_failed}
use insider_one.Runtime.Gives.{Gives->>=, Gives->>=_post, Gives-pure}
use insider_one.Runtime.Keeps.{Gives}
use insider_one.Service.{Service, with_option}
use insider_one.Service as Services
use insider_one.Worker as Workers
use insider_one.Worker.{Manager, Worker, with_concurrency, start}
use insider_one.Worker.Started.{Runs, IsIn, start-Runs}

-- The settings that the parts are to have.
abbrev pub IsWired : Config → App → Type 0
IsWired cfg a =
    (a.config ≡ cfg)
    × (pos a.service.claim_limit ≡ cfg.worker_claim_limit)
    × (pos a.service.rate_limit ≡ cfg.rate_limit_per_second)
    × (a.telemetry.has_shutdown ≡ cfg.otel_enabled)
    × ((worker : Worker)
        → Runs worker a.workers ↔ (
            IsIn worker.channel ("sms" ∷ "email" ∷ "push" ∷ [])
            × (worker.worker_id < pos_part cfg.worker_concurrency)))

positive-ltb : (n : ℤ) → IsPositive n → ltb_ℤ (pos 0) n ≡ true
positive-ltb (pos n) h = ground (arith, h.1)
positive-ltb (negsuc n) h = absurd (omega (arith, h.1))

service_of-limits :
    (cfg : Config)
    → IsPositive cfg.worker_claim_limit
    → IsPositive cfg.rate_limit_per_second
    → (pos (service_of cfg).claim_limit ≡ cfg.worker_claim_limit)
      × (pos (service_of cfg).rate_limit ≡ cfg.rate_limit_per_second)
unfolding service_of Services.new with_option
service_of-limits cfg h k = rw (positive-ltb _ h) (rw (positive-ltb _ k) (sym h.0, sym k.0))

new-concurrency : (n : ℤ) → IsPositive n → (Workers.new (n ∷ [])).concurrency ≡ pos_part n
unfolding Workers.new with_concurrency
new-concurrency n h = rw (positive-ltb n h) refl

-- Telemetry has something to shut down where it is enabled.
new-enabled :
    (sdk : Sdk) (cfg : Config)
    → Gives (λ t. t.has_shutdown ≡ cfg.otel_enabled) (lift (Telemetries.new sdk cfg).0)
unfolding Telemetries.new lift unless_failed
new-enabled sdk cfg = record { gives = λ w t e. ground arith }

module _ (env : Env) (sdk : Sdk) (database : Result (Unit {0})) where
  new_with_config-IsWired :
      (cfg : Config)
      → IsPositive cfg.worker_concurrency
      → IsPositive cfg.worker_claim_limit
      → IsPositive cfg.rate_limit_per_second
      → Gives (IsWired cfg) (new_with_config env sdk database cfg)
  unfolding new_with_config
  new_with_config-IsWired cfg c h k =
      let limits = service_of-limits cfg h k in
      let workers = (start-Runs (cfg.worker_concurrency ∷ [])).2 in
      Gives->>=_post (IsWired cfg) (λ t. t.has_shutdown ≡ cfg.otel_enabled)
        (lift (Telemetries.new sdk cfg).0) _ (new-enabled sdk cfg)
        (λ t enabled. Gives->>= (IsWired cfg) (lift database) _ (λ d.
          Gives->>= (IsWired cfg) (clock env) _ (λ now. Gives-pure (IsWired cfg) _ (
            refl,
            limits.0,
            limits.1,
            enabled,
            rw (← new-concurrency cfg.worker_concurrency c) workers,
          ))))

  -- If `New` succeeds, the service's claim and rate limits are those of the configuration, telemetry has
  -- something to shut down exactly if it is enabled there, and the workers
  -- are one for each of the channels sms, email and push and each number below the configured
  -- concurrency: none of the three settings falls back to the default of the part that takes it.
  pub new-IsWired :
      (quote : String → String) (getenv : Getenv) (w : World) (a : App)
      → (new env sdk database quote getenv w).0 ≡ ok a
      → IsWired (load getenv) a
  unfolding new
  new-IsWired quote getenv w a h =
      let all = load-IsPositive getenv in
      (Gives->>= (IsWired (load getenv)) (lift (Loggers.new quote (load getenv).log_level)) _
          (λ logger. new_with_config-IsWired (load getenv) all.0 all.1 all.2)).gives
        w a h
