-- ===== src/Tests/Server.antt =====
-- The server, its middleware and its workers at concrete inputs: one configured key, and requests of
-- one tenant to four of the routes.
use insider_one.Prelude.{
  ℕ, ◌≡◌, ◌≢◌, refl, inl, inr, ◌≤◌, ◌*◌, All, String, Bool, true, false, Option, none, some, List,
  [], ◌∷◌, str_eq, if◌then◌else◌, ◌&&◌, ◌<◌, ◌↔◌, arith, eq_iff, map, length,
}
use insider_one.App.{App, service_of}
use insider_one.App.Answers.{serve-answers}
use insider_one.App.Tracing.{IsStamped}
use insider_one.App.Answers.Batches.{handle_get_batch-missing}
use insider_one.App.Answers.Keys.{create_decoded-header_key}
use insider_one.App.Responses.{ResponseMeta, batch}
use insider_one.App.Handlers.{Codec, create_decoded, handle_get_batch}
use insider_one.App.Routes.{
  Route, health, create_notification, cancel_many, list_notifications, Mux, serve_mux, serve,
}
use insider_one.App.Safety.{serve-Unchanged, serve-CancelsOnly, serve-unauthorized}
use insider_one.Config.{Config, Getenv, load}
use insider_one.Httpx.Context.{background, with_tenant_id}
use insider_one.Httpx.Message.{Request, error_map, encoded}
use insider_one.Httpx.Middleware.{tenant_header, unauthorized, with_api_key_auth}
use insider_one.Httpx.Middleware.Access.{IsAdmitted, with_api_key_auth-IsAdmitted}
use insider_one.Repository.Schema.{tenant_id}
use insider_one.Runtime.{ok, pure}
use insider_one.Runtime.Ends.{Ends, IsCalm}
use insider_one.Service.Cancelling.{CancelsOnly}
use insider_one.Tests.{calm, fresh, sms_request}
use insider_one.Tests.Witnesses.{not_same, two_world}
use insider_one.Worker as Workers
use insider_one.Worker.{Worker, start}

-- An environment with one key, a concurrency, and a claim limit that is refused.
abbrev pub variables : Getenv
variables name =
    if str_eq name "API_KEYS"
    then "secret, "
    else if str_eq name "WORKER_CONCURRENCY"
    then "2"
    else if str_eq name "WORKER_CLAIM_LIMIT"
    then "-3"
    else ""

abbrev pub server : App
server = record {
  config = load variables;
  service = service_of (load variables);
  telemetry = record { has_shutdown = true };
  started_at = calm.now 0;
  workers = start (Workers.new ((load variables).worker_concurrency ∷ []));
}

abbrev pub codec : Codec
codec = record {
  decode_request = λ body. ok sms_request;
  decode_batch = λ body. ok (record { notifications = sms_request ∷ []; idempotency_key = "" });
  decode_ids = λ body. ok (body ∷ []);
  parse_time = λ text. none;
  spec = none;
}

abbrev pattern_of : Request → Option Route
pattern_of r =
    if str_eq r.path "/health"
    then some health
    else if str_eq r.path "/notifications/cancel"
    then some cancel_many
    else if str_eq r.method "GET"
    then some list_notifications
    else some create_notification

abbrev pub mux : Mux
mux = record {
  pattern = pattern_of;
  unmatched = λ r. record { status = 404; headers = []; payload = error_map "" "" };
}

-- A request with a key, for the tenant `acme`.
abbrev asking : String → String → String → Request
asking method path key = record {
  method = method;
  path = path;
  header = λ name.
      if str_eq name "X-API-Key" then key else if str_eq name "X-Tenant-Id" then "acme" else "";
  query = λ name. if str_eq name "limit" then "2" else "";
  path_value = λ name. "";
  body = "b";
}

abbrev pub posting : Request
posting = asking "POST" "/notifications" "secret"

abbrev listing : Request
listing = asking "GET" "/notifications" "secret"

abbrev cancelling : Request
cancelling = asking "POST" "/notifications/cancel" "secret"

abbrev intruding : Request
intruding = asking "POST" "/notifications" "guess"

serve-answers_example :
    Ends (λ response w'. IsStamped posting response) (serve calm codec mux server posting fresh)
serve-answers_example = serve-answers calm codec mux server posting create_notification fresh refl

serve-Unchanged_example : (serve calm codec mux server listing fresh).1.db ≡ fresh.db
serve-Unchanged_example =
    serve-Unchanged calm codec mux server listing list_notifications fresh refl refl

serve-CancelsOnly_example :
    CancelsOnly
      ("b" ∷ [])
      (tenant_id (tenant_header cancelling))
      two_world.db
      (serve calm codec mux server cancelling two_world).1.db
serve-CancelsOnly_example =
    serve-CancelsOnly calm codec mux server cancelling ("b" ∷ []) two_world (inr (refl, refl))

keys : (load variables).api_keys ≡ "secret" ∷ []
unfolding load insider_one.Config.getenv_csv insider_one.Config.trimmed_parts
    insider_one.Prelude.Parse.split_commas insider_one.Prelude.Text.trim_space
    insider_one.Prelude.Text.is_space
keys = refl

wrong_key : ¬ IsAdmitted ("secret" ∷ []) intruding
wrong_key (inl h) = not_same "secret" "" refl h.0
wrong_key (inr (inl h)) = not_same "POST" "GET" refl h.0
wrong_key (inr (inr (n, inl h))) = not_same "secret" "guess" refl h
wrong_key (inr (inr (n, inr h))) = h

not-IsAdmitted : ¬ IsAdmitted server.config.api_keys intruding
not-IsAdmitted = rw keys wrong_key

serve-unauthorized_example :
    Ends
      (λ response w'. (response.status ≡ 401) × (w'.db ≡ fresh.db) × (w'.metrics ≡ fresh.metrics))
      (serve calm codec mux server intruding fresh)
serve-unauthorized_example = serve-unauthorized calm codec mux server intruding fresh not-IsAdmitted

auth_example :
    (IsAdmitted ("secret" ∷ []) posting
      → with_api_key_auth ("secret" ∷ []) (serve_mux calm codec mux server) background posting
        ≡ serve_mux calm codec mux server
            (with_tenant_id background (tenant_header posting))
            posting)
    × (¬ IsAdmitted ("secret" ∷ []) posting
        → with_api_key_auth ("secret" ∷ []) (serve_mux calm codec mux server) background posting
          ≡ pure unauthorized)
auth_example =
    with_api_key_auth-IsAdmitted ("secret" ∷ []) (serve_mux calm codec mux server) background
      posting

abbrev batch_asked : Request
batch_asked = record (asking "GET" "/batches/b9" "secret") { path_value = λ name. "b9" }

calm-IsCalm : IsCalm calm
calm-IsCalm = record { works = λ t. refl; live = λ t. refl }

get_batch_example :
    Ends
      (λ response w'.
        (response.status ≡ 200)
        × ((meta : ResponseMeta) × (response.payload ≡ encoded (batch "b9" 0 [] meta)))
        × (w'.db ≡ two_world.db))
      (handle_get_batch calm codec server background batch_asked two_world)
unfolding insider_one.Repository.Schema.notification_row
    insider_one.Service.Create.build_notification
get_batch_example =
    handle_get_batch-missing calm calm-IsCalm codec server background batch_asked two_world refl

header_key_example :
    create_decoded calm codec server background posting
      (ok (record sms_request { idempotency_key = "k9" }))
    ≡ create_decoded calm codec server background posting (ok sms_request)
header_key_example = create_decoded-header_key calm codec server background posting sms_request "k9"
