-- ===== src/Tests/System.antt =====
-- The workers, the configuration and the whole system at concrete inputs.
use insider_one.Prelude.{
  ℕ, ◌≡◌, ◌≢◌, refl, inl, inr, ◌≤◌, ◌*◌, All, String, Bool, true, false, Option, none, some, List,
  [], ◌∷◌, str_eq, if◌then◌else◌, ◌&&◌, ◌<◌, ◌↔◌, arith, eq_iff, map, length,
}
use insider_one.Prelude.Int.{pos}
use insider_one.App.{new, new_with_config}
use insider_one.App.Routes.{serve}
use insider_one.App.Wiring.{IsWired, new-IsWired}
use insider_one.Config.{Config, Getenv, load}
use insider_one.Config.Settings.{IsSetting, load-IsSetting}
use insider_one.Repository.Lifecycle.{Evolves, WellFormed}
use insider_one.App.Keeping.Served.{serve-WellFormed}
use insider_one.App.Limits.{new-interleave-within}
use insider_one.Repository.RateLimit.Seconds.{used_in_second}
use insider_one.Runtime.{ok, err, pure}
use insider_one.Service.Interleaved.{RepositoryCall, acquire, claim, cancel, deliver, interleave}
use insider_one.Service.Operations.{run}
use insider_one.Tests.{calm, fresh, service}
use insider_one.Tests.Witnesses.{
  two_world, two_db-WellFormed, spent, spent-IsWithinQuota, spent-OnSeconds, calm-StoresSeconds,
}
use insider_one.Telemetry as Telemetries
use insider_one.Telemetry.{Sdk, shutdown_meter_provider, shutdown_tracer_provider}
use insider_one.Worker as Workers
use insider_one.Worker.{Worker, start}
use insider_one.Worker.Loop.{done, tick, run_channel, cycles, run_channel-ticks}
use insider_one.Worker.Started.{Runs, IsIn, start-Runs}
use insider_one.Tests.Server.{variables, server, codec, mux, posting}

run_channel_example :
    run_channel calm service "sms" (tick ∷ tick ∷ done ∷ tick ∷ []) fresh
    ≡ (ok tt, run calm service (cycles calm service "sms" 2) fresh)
run_channel_example = run_channel-ticks calm service "sms" (tick ∷ tick ∷ done ∷ tick ∷ []) fresh

start-Runs_example :
    (1 ≤ (Workers.new (pos 2 ∷ [])).concurrency)
    × (length (start (Workers.new (pos 2 ∷ []))) ≡ (Workers.new (pos 2 ∷ [])).concurrency * 3)
    × ((worker : Worker)
        → Runs worker (start (Workers.new (pos 2 ∷ []))) ↔ (
            IsIn worker.channel ("sms" ∷ "email" ∷ "push" ∷ [])
            × (worker.worker_id < (Workers.new (pos 2 ∷ [])).concurrency)))
start-Runs_example = start-Runs (pos 2 ∷ [])

load_example :
    IsSetting variables "WORKER_CONCURRENCY" (pos 4) (load variables).worker_concurrency
    × IsSetting variables "WORKER_CLAIM_LIMIT" (pos 25) (load variables).worker_claim_limit
    × IsSetting variables "RATE_LIMIT_PER_SECOND" (pos 100) (load variables).rate_limit_per_second
    × All (λ key. key ≢ "") (load variables).api_keys
load_example = load-IsSetting variables

-- A library whose functions all succeed.
abbrev sdk : Sdk
sdk = record {
  metric_exporter = λ endpoint. none;
  trace_exporter = λ endpoint. none;
  resource = λ name namespace. none;
  meter_shutdown = none;
  tracer_shutdown = none;
}

new-IsWired_example : IsWired (load variables) server
unfolding new new_with_config insider_one.Runtime.◌>>=◌ insider_one.Runtime.lift
    insider_one.Runtime.clock insider_one.Runtime.ask insider_one.Logging.new
    insider_one.Logging.parse_level insider_one.Prelude.Text.to_lower
    insider_one.Prelude.Text.trim_space load insider_one.Config.getenv
    insider_one.Config.getenv_bool insider_one.Telemetry.new insider_one.Telemetry.unless_failed
new-IsWired_example = new-IsWired calm sdk (ok tt) (λ text. text) variables fresh server refl

-- Both providers are shut down, and the meter's error is the one returned.
telemetry_close :
    Telemetries.close
      (record sdk { meter_shutdown = some "meter"; tracer_shutdown = some "tracer" })
      (some (record { has_shutdown = true }))
    ≡ (some "meter", shutdown_meter_provider ∷ shutdown_tracer_provider ∷ [])
unfolding Telemetries.close
telemetry_close = refl

-- Where the trace exporter fails, no provider is set.
telemetry_failed :
    Telemetries.new (record sdk { trace_exporter = λ endpoint. some "refused" }) (load variables)
    ≡ (err "create otlp trace exporter: refused", [])
unfolding Telemetries.new Telemetries.unless_failed load insider_one.Config.getenv_bool
    insider_one.Config.getenv
telemetry_failed = refl

-- Two workers and a request that cancels, between one another.
abbrev meeting : List RepositoryCall
meeting =
    acquire "sms" ∷ acquire "sms" ∷ claim "sms" 2 ∷ cancel ("b" ∷ []) "acme" ∷ deliver "b" "m1" ∷ []

-- The application at tables with two notifications and a window in use.
new-interleave-within_example :
    used_in_second "delivery:sms" 7 (interleave calm server.service meeting spent).db.windows ≤ 100
unfolding new new_with_config insider_one.Runtime.◌>>=◌ insider_one.Runtime.lift
    insider_one.Runtime.clock insider_one.Runtime.ask insider_one.Logging.new
    insider_one.Logging.parse_level insider_one.Prelude.Text.to_lower
    insider_one.Prelude.Text.trim_space load insider_one.Config.getenv insider_one.Config.getenv_int
    insider_one.Config.getenv_bool insider_one.Telemetry.new insider_one.Telemetry.unless_failed
new-interleave-within_example =
    new-interleave-within calm sdk (ok tt) (λ text. text) variables fresh spent server 100 meeting
      "delivery:sms" 7 refl refl calm-StoresSeconds (tt, (tt, (tt, (tt, (tt, tt)))))
      spent-IsWithinQuota spent-OnSeconds

serve-WellFormed_example :
    let w' = (serve calm codec mux server posting two_world).1 in
    WellFormed w'.db × Evolves two_world.db.notifications w'.db.notifications
serve-WellFormed_example =
    serve-WellFormed calm codec mux server posting two_world two_db-WellFormed
