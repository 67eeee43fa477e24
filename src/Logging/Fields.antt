-- ===== src/Logging/Fields.antt =====
-- Which fields the JSON of a log record has: `AbrioJsonFormatter` of src/core/logging.py.
use abrio.Prelude.{
  ◌≡◌, refl, subst, inl, inr, Bool, true, false, ◌||◌, Option, none, some, [], ◌∷◌, ◌++◌, Text,
  codes, if◌then◌else◌, Bool-cases, arith, ◌∙◌,
}
use abrio.Prelude.Texts.{same, same_refl, same→eq}
use abrio.Logging.Record.{
  Dict, Value, LogRecord, get, has, put, is_reserved, is_private, add_extras, format, fixed_fields,
  add_value, add_traceback,
}

-- An attribute that the payload shows: one that is not None.
abbrev pub shown : {V : Type 0} → Option (Value V) → Option (Value V)
shown (some (some v)) = some (some v)
shown _ = none

-- The first of two that is there.
abbrev pub first_of : {A : Type 0} → Option A → Option A → Option A
first_of none b = b
first_of (some a) b = some a

module _ {V : Type 0} where
  -- No key stands twice.
  abbrev pub Distinct : Dict V → Type 0
  Distinct [] = Unit
  Distinct ((k, v) ∷ rest) = (get k rest ≡ none) × Distinct rest

  get-append : (k : Text) (d e : Dict V) → get k (d ++ e) ≡ first_of (get k d) (get k e)
  get-append k [] e = refl
  get-append k ((key, v) ∷ d) e = ground (arith, get-append k d e)

  pub get-put :
      (k key : Text) (v : V) (d : Dict V)
      → get k (put key v d) ≡ (if same k key then some v else get k d)
  get-put k key v [] = refl
  get-put k key v ((x, y) ∷ d) = ground (
    arith,
    get-put k key v d,
    same→eq k key,
    same→eq k x,
    same→eq key x,
    same_refl k,
    same_refl key,
  )

module _ {V : Type 0} where
  -- What the loop shows of a key that the payload does not have.
  abbrev pub extra : Text → Dict (Value V) → Option (Value V)
  extra k attributes = if is_reserved k || is_private k then none else shown (get k attributes)

  -- The payload after one attribute.
  abbrev after : Text → Value V → Dict (Value V) → Dict (Value V)
  after key v payload =
      if is_reserved key || has key payload || is_private key
      then payload
      else add_value key v payload

  after_other :
      (k key : Text) (v : Value V) (payload : Dict (Value V))
      → same k key ≡ false
      → get k (after key v payload) ≡ get k payload
  after_other k key none payload n = ground arith
  after_other k key (some v) payload n = ground (arith, get-append k payload ((key, some v) ∷ []))

  after_self :
      (k : Text) (v : Value V) (payload rest : Dict (Value V))
      → get k rest ≡ none
      → first_of (get k (after k v payload)) (extra k rest)
        ≡ first_of (get k payload) (extra k ((k, v) ∷ rest))
  after_self k none payload rest h = ground (arith, same_refl k)
  after_self k (some v) payload rest h =
      ground (arith, same_refl k, get-append k payload ((k, some v) ∷ []))

  after_step :
      (k key : Text) (v : Value V) (payload rest : Dict (Value V))
      → get key rest ≡ none
      → first_of (get k (after key v payload)) (extra k rest)
        ≡ first_of (get k payload) (extra k ((key, v) ∷ rest))
  after_step k key v payload rest h = elim (Bool-cases (same k key)) [
    | inl e ↦
        subst
          (λ x.
            get x rest ≡ none
            → first_of (get k (after x v payload)) (extra k rest)
              ≡ first_of (get k payload) (extra k ((x, v) ∷ rest)))
          (same→eq k key e) (after_self k v payload rest) h
    | inr n ↦ rw (after_other k key v payload n, n) refl
  ]

  nothing_more : (o : Option (Value V)) (b : Bool) → o ≡ first_of o (if b then none else none)
  nothing_more none true = refl
  nothing_more none false = refl
  nothing_more (some v) b = refl

  get-add_extras :
      (k : Text) (payload attributes : Dict (Value V))
      → Distinct attributes
      → get k (add_extras payload attributes) ≡ first_of (get k payload) (extra k attributes)
  unfolding add_extras
  get-add_extras k payload [] h = nothing_more (get k payload) (is_reserved k || is_private k)
  get-add_extras k payload ((key, v) ∷ rest) h =
      get-add_extras k (after key v payload) rest h.1 ∙ after_step k key v payload rest h.0

  abbrev traced : Option V → Option (Value V)
  traced none = none
  traced (some t) = some (some t)

  -- What the JSON of a record has under a key: the traceback, else the field of that name, else the
  -- attribute of that name that is not None and is none of the formatter's or the library's own.
  abbrev pub field : Text → LogRecord V → Option (Value V)
  field k r =
      let plain = first_of (get k (fixed_fields r)) (extra k r.attributes) in
      if same k (codes "traceback") then first_of (traced r.traceback) plain else plain

  -- For a log record whose attributes have no name twice, the JSON payload has under each key the
  -- traceback of its exception if that is its key, else the fixed field of that name, else the
  -- attribute of that name if it is neither None nor reserved nor private.
  pub get-format :
      (k : Text) (r : LogRecord V) → Distinct r.attributes → get k (format r) ≡ field k r
  unfolding format
  get-format k r h = by_traceback r.traceback
    where
      by_traceback :
          (t : Option V)
          → get k (add_traceback t (add_extras (fixed_fields r) r.attributes)) ≡ (
              if same k (codes "traceback")
              then first_of (traced t) (first_of (get k (fixed_fields r)) (extra k r.attributes))
              else first_of (get k (fixed_fields r)) (extra k r.attributes))
      by_traceback none = ground (arith, get-add_extras k (fixed_fields r) r.attributes h)
      by_traceback (some t) =
          get-put k (codes "traceback") (some t) (add_extras (fixed_fields r) r.attributes)
          ∙ ground (arith, get-add_extras k (fixed_fields r) r.attributes h)
