-- ===== src/Observability/Dispatch.antt =====
-- `RequestIdAndMetricsMiddleware.dispatch` of src/core/observability.py, with `record_http_request`
-- of src/core/metrics.py and the context variable of src/core/request_context.py. The application
-- is a function of the request id it finds in the context.
use abrio.Prelude.{
  ℕ, ◌≡◌, refl, Bool, true, false, Option, some, List, ◌∷◌, Text, if◌then◌else◌, ◌∙◌,
}
use abrio.Prelude.Texts.{same_refl}
use abrio.Metrics.{World}
use abrio.RateLimit.Scope.{Scope, upper}
use abrio.Logging.Record.{Dict, get, put, normalize_request_id}
use abrio.Logging.Fields.{get-put}
use abrio.Observability.{normalized_route, skip_request_log, record_validation_rejection}

-- One increment of `HTTP_REQUESTS` and the observation of `HTTP_REQUEST_DURATION` made with it.
pub record HttpRequest : Type 0 where
  pub method : Text
  pub route : Text
  pub status_code : ℕ
  pub duration : ℕ

-- The line `http_request_completed`, at the level of an error or not.
pub record Completed : Type 0 where
  pub is_error : Bool
  pub request : HttpRequest

-- What the middleware reads and writes of its process.
pub record Process : Type 0 where
  pub world : World
  pub http_requests : List HttpRequest
  pub log : List Completed
  pub request_id : Option Text

pub data Reply : Type 0 where
  response : ℕ → Dict Text → Reply
  -- An exception that the application lets through.
  raised : Reply

-- What the application does: its reply, the path of the route that matched, and the world it leaves.
abbrev pub App : Type 0
App = Option Text → World → Reply × Option Text × World

unfoldable pub record_http_request : HttpRequest → Process → Process
record_http_request r s = record s {
  http_requests = record r { method = upper r.method } ∷ s.http_requests;
}

abbrev log_unless : Bool → Completed → Process → Process
log_unless skip line s = if skip then s else record s { log = line ∷ s.log }

abbrev pub requested : Scope → Text → ℕ → ℕ → HttpRequest
requested scope route status_code duration = record {
  method = scope.method;
  route = route;
  status_code = status_code;
  duration = duration;
}

-- `reset_request_id`
abbrev reset : Option Text → Reply × Process → Reply × Process
reset before (reply, s) = (reply, record s { request_id = before })

module _ (header : Text) (scope : Scope) (duration : ℕ) where
  -- The handler of an exception, which it raises again.
  on_exception : Option Text → Process → Process
  unfolding record_http_request
  on_exception matched s =
      let route = normalized_route matched scope.path in
      let r = requested scope route 500 duration in
      log_unless (skip_request_log scope.path route) (record { is_error = true; request = r })
        (record_http_request r s)

  on_response : ℕ → Option Text → Process → Process
  unfolding record_http_request
  on_response status matched s =
      let route = normalized_route matched scope.path in
      let r = requested scope route status duration in
      let counted = record_http_request r s in
      let checked = record counted {
        world = record_validation_rejection scope matched status counted.world;
      } in
      log_unless (skip_request_log scope.path route) (record { is_error = false; request = r })
        checked

  finish : Text → Reply → Option Text → Process → Reply × Process
  unfolding on_exception on_response
  finish id (Reply.response status headers) matched s =
      (Reply.response status (put header id headers), on_response status matched s)
  finish id Reply.raised matched s = (Reply.raised, on_exception matched s)

  unfoldable pub dispatch :
      (Text → Option Text) → Text → Option Text → App → Process → Reply × Process
  unfolding finish
  dispatch parse fresh value call_next s =
      let id = normalize_request_id parse fresh value in
      let (reply, matched, w) = call_next (some id) s.world in
      reset s.request_id (finish id reply matched (record s { world = w; request_id = some id }))

abbrev status_of : Reply → ℕ
status_of (Reply.response status headers) = status
status_of Reply.raised = 500

abbrev is_raised : Reply → Bool
is_raised Reply.raised = true
is_raised _ = false

-- The id of the request stands in the headers of a response; an exception stays one.
abbrev pub Named : Text → Text → Reply → Reply → Type 0
Named header id (Reply.response n h) reply =
    (headers : Dict Text) × (reply ≡ Reply.response n headers) × (get header headers ≡ some id)
Named header id Reply.raised reply = reply ≡ Reply.raised

-- What one request leaves: the context as it was, one more count, and one more line at most.
pub record IsServed (header id path : Text) (r : HttpRequest) (before : Process) (inner : Reply)
    (after : Reply × Process) : Type 0 where
  pub restored : after.1.request_id ≡ before.request_id
  pub counted : after.1.http_requests ≡ record r { method = upper r.method } ∷ before.http_requests
  pub logged : after.1.log ≡ (
      if skip_request_log path r.route
      then before.log
      else record { is_error = is_raised inner; request = r } ∷ before.log)
  pub named : Named header id inner after.0

log_unless-http :
    (skip : Bool) (line : Completed) (s : Process)
    → (log_unless skip line s).http_requests ≡ s.http_requests
log_unless-http true line s = refl
log_unless-http false line s = refl

log_unless-log :
    (skip : Bool) (line : Completed) (s : Process)
    → (log_unless skip line s).log ≡ (if skip then s.log else line ∷ s.log)
log_unless-log true line s = refl
log_unless-log false line s = refl

module _ (header : Text) (scope : Scope) (duration : ℕ) (id : Text) (matched : Option Text)
    (s : Process) (w : World) where
  finish-IsServed :
      (inner : Reply)
      → IsServed header id scope.path
          (requested scope (normalized_route matched scope.path) (status_of inner) duration)
          s
          inner
          (reset s.request_id (
            finish header scope duration id inner matched
              (record s { world = w; request_id = some id })))
  unfolding finish on_exception on_response record_http_request
  finish-IsServed (Reply.response n h) =
      let skip = skip_request_log scope.path (normalized_route matched scope.path) in
      record {
        restored = refl;
        counted = log_unless-http skip _ _;
        logged = log_unless-log skip _ _;
        named = (put header id h, refl, get-put header header id h ∙ rw (same_refl header) refl);
      }
  finish-IsServed Reply.raised =
      let skip = skip_request_log scope.path (normalized_route matched scope.path) in
      record {
        restored = refl;
        counted = log_unless-http skip _ _;
        logged = log_unless-log skip _ _;
        named = refl;
      }

-- For any application, a response or an exception of it, the middleware leaves the request id of
-- the context as it was, counts the request once under its method in upper case, its route and its
-- status (500 for an exception), logs at most one line, an error exactly for an exception, and
-- names the id in the headers of a response.
pub dispatch-IsServed :
    (header : Text) (scope : Scope) (duration : ℕ) (parse : Text → Option Text) (fresh : Text)
    (value : Option Text) (call_next : App) (s : Process)
    → let id = normalize_request_id parse fresh value in
      let (inner, matched, w) = call_next (some id) s.world in
      IsServed header id scope.path
        (requested scope (normalized_route matched scope.path) (status_of inner) duration)
        s
        inner
        (dispatch header scope duration parse fresh value call_next s)
unfolding dispatch
dispatch-IsServed header scope duration parse fresh value call_next s =
    let id = normalize_request_id parse fresh value in
    let (inner, matched, w) = call_next (some id) s.world in
    finish-IsServed header scope duration id matched s w inner
