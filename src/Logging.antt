-- ===== src/Logging.antt =====
-- app/logging.py: the context of a request, and the JSON line of a log record. A `dict` is the list
-- of its entries in insertion order. `json.dumps` is not modelled: a line is its payload.
pub mod Lines
use ticket_triage.Base.{Bool, true, false, ◌==◌, Option, none, some, List, [], ◌∷◌, if◌then◌else◌}
use ticket_triage.Text.{Text, codes, text_eq, upper}
use ticket_triage.Json.{Json, null, str}

abbrev pub Dict : Type 0
Dict = List (Text × Json)

-- `d[k] = v`
unfoldable pub put : Text → Json → Dict → Dict
put k v [] = (k, v) ∷ []
put k v ((j, w) ∷ d) = if j == k then (k, v) ∷ d else (j, w) ∷ put k v d

-- `d.get(k)`, which tells a missing key from a `None`.
unfoldable pub get : Text → Dict → Option Json
get k [] = none
get k ((j, w) ∷ d) = if j == k then some w else get k d

-- `d.update(e)`
unfoldable pub update : Dict → Dict → Dict
unfolding put
update d [] = d
update d ((k, v) ∷ e) = update (put k v d) e

-- The value of `_context`.
abbrev pub Context : Type 0
Context = Option Dict

abbrev pub or_empty : Context → Dict
or_empty none = []
or_empty (some d) = d

unfoldable pub not_none : Dict → Dict
not_none [] = []
not_none ((k, null) ∷ d) = not_none d
not_none ((k, v) ∷ d) = (k, v) ∷ not_none d

-- The new context, and the token, which is the value that was set before.
unfoldable pub bind_context : Dict → Context → Context × Context
unfolding update not_none
bind_context fields context = (some (update (or_empty context) (not_none fields)), context)

unfoldable pub reset_context : Context → Context → Context
reset_context token context = token

-- What `format` reads of a `logging.LogRecord`: the time as `formatTime` prints it, and the record's
-- attributes, among them the fields of `extra`.
pub record LogRecord : Type 0 where
  pub time : Text
  pub levelname : Text
  pub name : Text
  pub message : Text
  pub attributes : Dict
  pub exc_info : Option Text

-- _RESERVED: the attributes of every record.
abbrev pub reserved : List Text
reserved =
    codes "name"
    ∷ codes "msg"
    ∷ codes "args"
    ∷ codes "levelname"
    ∷ codes "levelno"
    ∷ codes "pathname"
    ∷ codes "filename"
    ∷ codes "module"
    ∷ codes "exc_info"
    ∷ codes "exc_text"
    ∷ codes "stack_info"
    ∷ codes "lineno"
    ∷ codes "funcName"
    ∷ codes "created"
    ∷ codes "msecs"
    ∷ codes "relativeCreated"
    ∷ codes "thread"
    ∷ codes "threadName"
    ∷ codes "processName"
    ∷ codes "process"
    ∷ codes "message"
    ∷ codes "asctime"
    ∷ codes "taskName"
    ∷ []

unfoldable pub is_reserved : Text → List Text → Bool
is_reserved k [] = false
is_reserved k (r ∷ rs) = if k == r then true else is_reserved k rs

-- The fields of `extra`.
unfoldable pub extras : Dict → Dict
unfolding is_reserved
extras [] = []
extras ((k, v) ∷ d) = if is_reserved k reserved then extras d else (k, v) ∷ extras d

abbrev pub with_exception : Option Text → Dict → Dict
with_exception none payload = payload
with_exception (some e) payload = put (codes "exception") (str e) payload

abbrev pub head_fields : LogRecord → Dict
head_fields r =
    (codes "timestamp", str r.time)
    ∷ (codes "level", str r.levelname)
    ∷ (codes "logger", str r.name)
    ∷ (codes "message", str r.message)
    ∷ []

-- `JsonFormatter.format`
unfoldable pub format : Context → LogRecord → Dict
unfolding update extras put
format context r =
    with_exception r.exc_info
      (update (update (head_fields r) (or_empty context)) (extras r.attributes))

-- The root logger, and uvicorn's access logger, as far as `configure_logging` sets them: how many
-- handlers each has, and the level.
pub record Loggers : Type 0 where
  pub root_handlers : List Text
  pub root_level : Text
  pub access_handlers : List Text

unfoldable pub configure_logging : Text → Loggers → Loggers
configure_logging level loggers = record {
  root_handlers = codes "stdout, JsonFormatter" ∷ [];
  root_level = upper level;
  access_handlers = [];
}
