-- ===== src/Logging/Record.antt =====
-- src/core/logging.py: `RequestContextFilter` and `AbrioJsonFormatter`, and src/core/request_context.py.
-- A dictionary is the list of its entries in their order; `json.dumps` writes the payload.
use abrio.Prelude.{
  Bool, false, ◌||◌, Option, none, some, List, [], ◌∷◌, ◌++◌, Text, codes, is_some, if◌then◌else◌,
}
use abrio.Prelude.Texts.{same, is_prefix}

abbrev pub Dict : Type 0 → Type 0
Dict V = List (Text × V)

module _ {V : Type 0} where
  abbrev pub get : Text → Dict V → Option V
  get k [] = none
  get k ((key, v) ∷ rest) = if same k key then some v else get k rest

  abbrev pub has : Text → Dict V → Bool
  has k d = is_some (get k d)

  -- `d[key] = v`
  abbrev pub put : Text → V → Dict V → Dict V
  put key v [] = (key, v) ∷ []
  put key v ((k, x) ∷ rest) = if same key k then (key, v) ∷ rest else (k, x) ∷ put key v rest

  -- `getattr(record, key, default)`
  abbrev pub get_or : Text → V → Dict V → V
  get_or k default d = elim (get k d) [ none ↦ default | some v ↦ v ]

-- `_LOG_RECORD_FIELDS`
abbrev pub log_record_fields : List Text
log_record_fields =
    codes "args"
    ∷ codes "asctime"
    ∷ codes "created"
    ∷ codes "exc_info"
    ∷ codes "exc_text"
    ∷ codes "filename"
    ∷ codes "funcName"
    ∷ codes "levelname"
    ∷ codes "levelno"
    ∷ codes "lineno"
    ∷ codes "module"
    ∷ codes "msecs"
    ∷ codes "message"
    ∷ codes "msg"
    ∷ codes "name"
    ∷ codes "pathname"
    ∷ codes "process"
    ∷ codes "processName"
    ∷ codes "relativeCreated"
    ∷ codes "stack_info"
    ∷ codes "thread"
    ∷ codes "threadName"
    ∷ []

abbrev pub is_in : Text → List Text → Bool
is_in k [] = false
is_in k (key ∷ keys) = same k key || is_in k keys

unfoldable pub is_reserved : Text → Bool
is_reserved k = is_in k log_record_fields

-- `key.startswith("_")`
unfoldable pub is_private : Text → Bool
is_private k = is_prefix (codes "_") k

-- A value of a record's attribute: `none` is None, and a text keeps its type.
abbrev pub Value : Type 0 → Type 0
Value V = Option V

-- What the formatter reads of a `LogRecord`: the time as a text, its level, its logger, the message
-- made of its arguments, the traceback of its exception, and the attributes (`__dict__`).
pub record LogRecord (V : Type 0) : Type 0 where
  pub timestamp : V
  pub levelname : V
  pub name : V
  pub message : V
  pub traceback : Option V
  pub attributes : Dict (Value V)

module _ {V : Type 0} where
  abbrev pub set_default : Text → Value V → Dict (Value V) → Dict (Value V)
  set_default k v d = if has k d then d else d ++ (k, v) ∷ []

  -- `RequestContextFilter.filter`; it lets every record through.
  unfoldable pub filter : V → Value V → LogRecord V → LogRecord V
  filter service_name request_id r = record r {
    attributes = set_default (codes "event") (some r.message) (
        set_default (codes "request_id") request_id
          (set_default (codes "service") (some service_name) r.attributes));
  }

  unfoldable pub fixed_fields : LogRecord V → Dict (Value V)
  fixed_fields r =
      (codes "timestamp", some r.timestamp)
      ∷ (codes "level", some r.levelname)
      ∷ (codes "service", get_or (codes "service") none r.attributes)
      ∷ (codes "logger", some r.name)
      ∷ (codes "event", get_or (codes "event") (some r.message) r.attributes)
      ∷ (codes "request_id", get_or (codes "request_id") none r.attributes)
      ∷ []

  abbrev pub add_value : Text → Value V → Dict (Value V) → Dict (Value V)
  add_value k none payload = payload
  add_value k (some v) payload = payload ++ (k, some v) ∷ []

  -- The loop over `record.__dict__`.
  unfoldable pub add_extras : Dict (Value V) → Dict (Value V) → Dict (Value V)
  unfolding is_reserved is_private
  add_extras payload [] = payload
  add_extras payload ((k, v) ∷ rest) =
      add_extras
        (if is_reserved k || has k payload || is_private k then payload else add_value k v payload)
        rest

  abbrev pub add_traceback : Option V → Dict (Value V) → Dict (Value V)
  add_traceback none payload = payload
  add_traceback (some t) payload = put (codes "traceback") (some t) payload

  unfoldable pub format : LogRecord V → Dict (Value V)
  unfolding fixed_fields add_extras
  format r = add_traceback r.traceback (add_extras (fixed_fields r) r.attributes)

-- `str(UUID(value.strip()))` is the parameter, `none` where it raises; `fresh` is `uuid4`'s.
unfoldable pub normalize_request_id : (Text → Option Text) → Text → Option Text → Text
normalize_request_id parse fresh none = fresh
normalize_request_id parse fresh (some []) = fresh
normalize_request_id parse fresh (some (c ∷ cs)) = elim (parse (c ∷ cs)) [
  | none ↦ fresh
  | some id ↦ id
]
