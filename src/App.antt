-- ===== src/App.antt =====
-- app/main.py: the request middleware and the lifespan of the worker. What handles a request, the
-- clock and uuid4 are arguments. Starlette, as its documentation says, runs the handler of
-- `Exception` (app/errors.py) outside of every middleware: that composition is `serve`.
pub mod Traced
use ticket_triage.Base.{
  ℕ, ◌-◌, Bool, true, false, Option, none, some, List, [], ◌∷◌, ◌++◌, map, if◌then◌else◌,
}
use ticket_triage.Text.{Text, codes}
use ticket_triage.Json.{Json, str, int}
use ticket_triage.Errors.{handle_unexpected}
use ticket_triage.Logging.{Dict, put, Context, bind_context, reset_context, LogRecord, format}

pub record Request : Type 0 where
  pub request_id_header : Option Text
  pub path : Text
  pub method : Text

pub record Response : Type 0 where
  pub status_code : ℕ
  pub headers : Dict

-- A response, or an exception that no inner handler takes, as its traceback is printed.
pub data Handled : Type 0 where
  responded : Response → Handled
  raised : Text → Handled

-- `call_next`: the records that are logged while the request is handled, and how that ends.
abbrev pub Handler : Type 0
Handler = List LogRecord × Handled

-- The context of the request's task, and the lines that have been written.
pub record Server : Type 0 where
  pub context : Context
  pub lines : List Dict

unfoldable pub write : List LogRecord → Server → Server
write records s = record s { lines = s.lines ++ map (format s.context) records }

-- `request.headers.get("X-Request-ID") or uuid4().hex`
unfoldable pub request_id_of : Option Text → Text → Text
request_id_of none fresh = fresh
request_id_of (some []) fresh = fresh
request_id_of (some (c ∷ s)) fresh = c ∷ s

-- What a request reads from outside: the new id, the clock before and after, and the times that the
-- formatter prints.
pub record Moment : Type 0 where
  pub fresh : Text
  pub duration_ms : ℕ
  pub completed_at : Text
  pub failed_at : Text

abbrev pub request_fields : Text → Request → Dict
request_fields id req = (codes "request_id", str id) ∷ (codes "route", str req.path) ∷ []

abbrev pub completed_record : Text → Request → Moment → Response → LogRecord
completed_record id req m r = record {
  time = m.completed_at;
  levelname = codes "INFO";
  name = codes "app.request";
  message = codes "request completed";
  attributes =
      (codes "request_id", str id)
      ∷ (codes "route", str req.path)
      ∷ (codes "method", str req.method)
      ∷ (codes "status_code", int r.status_code)
      ∷ (codes "duration_ms", int m.duration_ms)
      ∷ [];
  exc_info = none;
}

-- After `call_next`: the context is back already; a response gets the header and is logged.
unfoldable pub after_next : Text → Request → Moment → Handled → Server → Handled × Server
unfolding write put
after_next id req m (raised e) s = (raised e, s)
after_next id req m (responded r) s = (
  responded (record r { headers = put (codes "X-Request-ID") (str id) r.headers }),
  write (completed_record id req m r ∷ []) s,
)

-- `request_context`
unfoldable pub request_context : Request → Moment → Handler → Server → Handled × Server
unfolding request_id_of bind_context reset_context write after_next
request_context req m (records, handled) s =
    let id = request_id_of req.request_id_header m.fresh in
    let (bound, token) = bind_context (request_fields id req) s.context in
    let inner = write records (record s { context = bound }) in
    after_next id req m handled (record inner { context = reset_context token inner.context })

abbrev pub unhandled_record : Moment → Text → LogRecord
unhandled_record m e = record {
  time = m.failed_at;
  levelname = codes "ERROR";
  name = codes "app.errors";
  message = codes "unhandled error";
  attributes = (codes "error_code", str (codes "internal_error")) ∷ [];
  exc_info = some e;
}

-- `_handle_unexpected`, which logs the exception and answers for it.
unfoldable pub answer_unexpected : Moment → Handled × Server → Response × Server
unfolding write
answer_unexpected m (responded r, s) = (r, s)
answer_unexpected m (raised e, s) = (
  record { status_code = handle_unexpected.status_code; headers = [] },
  write (unhandled_record m e ∷ []) s,
)

unfoldable pub serve : Request → Moment → Handler → Server → Response × Server
unfolding request_context answer_unexpected
serve req m handler s = answer_unexpected m (request_context req m handler s)
