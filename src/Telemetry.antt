-- ===== src/Telemetry.antt =====
-- internal/telemetry/telemetry.go: what `New` sets up and `Close` shuts down. OpenTelemetry's own
-- constructors and shutdowns are parameters, by the error that each returns; the calls that change
-- the process's global providers, and the shutdowns, are returned in order.
use insider_one.Prelude.{
  String, Bool, true, false, Option, none, some, List, [], ◌∷◌, if◌then◌else◌,
}
use insider_one.Prelude.Text.{◌<>◌}
use insider_one.Config.{Config}
use insider_one.Runtime.{Error, Result, ok, err}

pub data Call : Type 0 where
  set_meter_provider : Call
  set_tracer_provider : Call
  set_text_map_propagator : Call
  shutdown_meter_provider : Call
  shutdown_tracer_provider : Call

-- The errors of the library's functions.
pub record Sdk : Type 0 where
  pub metric_exporter : (endpoint : String) → Option Error  -- otlpmetricgrpc.New
  pub trace_exporter : (endpoint : String) → Option Error  -- otlptracegrpc.New
  pub resource : (name namespace : String) → Option Error  -- resource.New
  pub meter_shutdown : Option Error
  pub tracer_shutdown : Option Error

-- Whether `shutdown` is set.
pub record Telemetry : Type 0 where
  pub has_shutdown : Bool

abbrev pub SetUp : Type 0
SetUp = Result Telemetry × List Call

-- `if err != nil { return nil, fmt.Errorf("…: %w", err) }`
unfoldable pub unless_failed : String → Option Error → SetUp → SetUp
unless_failed what none rest = rest
unless_failed what (some e) rest = (err (what <> e), [])

-- `New`
unfoldable pub new : Sdk → Config → SetUp
unfolding unless_failed
new sdk cfg =
    if cfg.otel_enabled
    then unless_failed "create otlp metric exporter: " (sdk.metric_exporter cfg.otel_endpoint) (
        unless_failed "create otlp trace exporter: " (sdk.trace_exporter cfg.otel_endpoint) (
          unless_failed "create resource: " (sdk.resource cfg.service_name "insider-one") (
            ok (record { has_shutdown = true }),
            set_meter_provider ∷ set_tracer_provider ∷ set_text_map_propagator ∷ [],
          )))
    else (ok (record { has_shutdown = false }), [])

-- `metricErr` before `traceErr`
first_error : Option Error → Option Error → Option Error
first_error none later = later
first_error (some e) later = some e

-- `Close`
unfoldable pub close : Sdk → Option Telemetry → Option Error × List Call
unfolding first_error
close sdk none = (none, [])
close sdk (some t) =
    if t.has_shutdown
    then (
      first_error sdk.meter_shutdown sdk.tracer_shutdown,
      shutdown_meter_provider ∷ shutdown_tracer_provider ∷ [],
    )
    else (none, [])
