-- ===== src/RateLimit/Scope.antt =====
-- src/api/rate_limit.py: what a request says of itself. A text or a body is the list of its codes.
use abrio.Prelude.{
  ℕ, ◌+◌, ◌-◌, Bool, true, false, ◌&&◌, ◌||◌, not, Option, none, some, List, [], ◌∷◌, ◌++◌, map,
  Text, codes, ◌==◌, leb, if◌then◌else◌, length, drop,
}
use abrio.Prelude.Texts.{same, is_prefix, rstrip, lstrip}
use abrio.Config.{Settings}
use abrio.Metrics.{SubmissionType}

-- A value that `json.loads` returns; an integer by its decimal text.
mutual
  pub data Json : Type 0 where
    null real : Json
    boolean : Bool → Json
    integer : Text → Json
    string : Text → Json
    array : Items → Json
    object : Fields → Json

  pub data Items : Type 0 where
    no_items : Items
    item : Json → Items → Items

  pub data Fields : Type 0 where
    no_fields : Fields
    field : Text → Json → Fields → Fields

pub record Param : Type 0 where
  pub name : Text
  pub values : List Text

-- What `json.loads` does on a body: a value, one of the two errors that are caught, or an exception
-- that is not (`ValueError` on a very long integer, `RecursionError` on deep nesting).
pub data Loaded : Type 0 where
  loaded : Json → Loaded
  caught uncaught : Loaded

-- What is called of Python's library: `json.loads` on the decoded body, with the decoding;
-- `parse_qs`; `str.isdecimal` on one character.
pub record Library : Type 0 where
  pub loads : Text → Loaded
  pub parse_qs : Text → List Param
  pub is_decimal : ℕ → Bool

pub record Scope : Type 0 where
  pub method : Text
  pub path : Text
  pub query_string : Text
  pub client : Option Text

abbrev upper_code : ℕ → ℕ
upper_code c = if leb 97 c then (if leb c 122 then c - 32 else c) else c

-- `upper()` on ASCII letters.
abbrev pub upper : Text → Text
upper = map upper_code

-- `text or "/"`
abbrev or_slash : Text → Text
or_slash [] = codes "/"
or_slash (c ∷ cs) = c ∷ cs

abbrev pub api_base : Settings → Text
api_base s = rstrip 47 s.api_prefix ++ codes "/v1"

unfoldable pub relative_api_path : Scope → Settings → Option Text
relative_api_path scope s =
    let base = api_base s in
    if not (same scope.path base) && not (is_prefix (base ++ codes "/") scope.path)
    then none
    else some (or_slash (rstrip 47 (or_slash (drop (length base) scope.path))))

unfoldable pub get : Text → Fields → Option Json
get key no_fields = none
get key (field k v fs) = if same k key then some v else get key fs

-- `parsed if isinstance(parsed, dict) else {}`
abbrev as_object : Json → Fields
as_object (Json.object fs) = fs
as_object _ = Fields.no_fields

abbrev fields_of : Loaded → Option Fields
fields_of (loaded j) = some (as_object j)
fields_of caught = some Fields.no_fields
fields_of uncaught = none

-- `none`: the exception passes to the caller.
unfoldable pub parse_json_body : Library → Text → Option Fields
parse_json_body lib [] = some Fields.no_fields
parse_json_body lib (c ∷ cs) = fields_of (lib.loads (c ∷ cs))

-- `value == MessagePriority.EXPRESS.value`
abbrev pub is_express : Option Json → Bool
is_express (some (Json.string t)) = same t (codes "express")
is_express _ = false

abbrev item_is_express : Json → Bool
item_is_express (Json.object fs) = is_express (get (codes "priority") fs)
item_is_express _ = false

-- The normal and the express messages of a batch; an item that is no object counts as normal.
unfoldable pub count_items : ℕ → ℕ → Items → ℕ × ℕ
unfolding get
count_items normal express Items.no_items = (normal, express)
count_items normal express (Items.item j js) =
    let is_one = item_is_express j in
    count_items (if is_one then normal else normal + 1) (if is_one then express + 1 else express) js

unfoldable pub count_batch_priorities : Option Json → ℕ × ℕ
unfolding count_items
count_batch_priorities (some (Json.array js)) = count_items 0 0 js
count_batch_priorities _ = (0, 0)

unfoldable pub get_client_identity : Scope → Text
get_client_identity scope = elim scope.client [
  | some host ↦ codes "ip:" ++ host
  | none ↦ codes "ip:unknown"
]

abbrev all_decimal : Library → Text → Bool
all_decimal lib [] = true
all_decimal lib (c ∷ cs) = lib.is_decimal c && all_decimal lib cs

-- `text.isdecimal()`, which is false on an empty text.
abbrev pub is_decimal_text : Library → Text → Bool
is_decimal_text lib [] = false
is_decimal_text lib (c ∷ cs) = all_decimal lib (c ∷ cs)

abbrev pub user_identity : Text → Text
user_identity id = codes "user:" ++ id

abbrev if_decimal : Library → Text → Option Text
if_decimal lib id = if is_decimal_text lib id then some (user_identity id) else none

abbrev identity_of_json : Library → Option Json → Option Text
identity_of_json lib (some (Json.integer id)) = some (user_identity id)
identity_of_json lib (some (Json.string id)) = if_decimal lib id
identity_of_json lib _ = none

unfoldable pub user_identity_from_payload : Library → Fields → Option Text
unfolding get
user_identity_from_payload lib payload = identity_of_json lib (get (codes "user_id") payload)

unfoldable pub param : Text → List Param → List Text
param name [] = []
param name (p ∷ ps) = if same p.name name then p.values else param name ps

abbrev first_decimal : Library → List Text → Option Text
first_decimal lib [] = none
first_decimal lib (v ∷ vs) = if_decimal lib v

unfoldable pub user_identity_from_query : Library → Scope → Option Text
unfolding param
user_identity_from_query lib scope =
    first_decimal lib (param (codes "user_id") (lib.parse_qs scope.query_string))

abbrev prepend : ℕ → List Text → List Text
prepend c [] = (c ∷ []) ∷ []
prepend c (t ∷ ts) = (c ∷ t) ∷ ts

-- `text.split("/")`
unfoldable pub split : Text → List Text
split [] = [] ∷ []
split (c ∷ cs) = let rest = split cs in if c == 47 then [] ∷ rest else prepend c rest

abbrev identity_of_parts : Library → List Text → Option Text
identity_of_parts lib (first ∷ second ∷ rest) =
    if same first (codes "users") then if_decimal lib second else none
identity_of_parts lib _ = none

unfoldable pub user_identity_from_user_path : Library → Text → Option Text
unfolding split
user_identity_from_user_path lib relative_path =
    identity_of_parts lib (split (lstrip 47 (rstrip 47 relative_path)))

abbrev pub is_method : Text → Scope → Bool
is_method m scope = same (upper scope.method) m

abbrev is_path : Text → Option Text → Bool
is_path p none = false
is_path p (some path) = same path p

unfoldable pub submission_type_for_scope : Scope → Settings → Option SubmissionType
unfolding relative_api_path
submission_type_for_scope scope s =
    let path = relative_api_path scope s in
    if is_method (codes "POST") scope && is_path (codes "/messages") path
    then some SubmissionType.single
    else if is_method (codes "POST") scope && is_path (codes "/messages/batch") path
    then some SubmissionType.batch
    else none

unfoldable pub request_may_need_body : Scope → Settings → Bool
unfolding relative_api_path
request_may_need_body scope s =
    let path = relative_api_path scope s in
    is_method (codes "POST") scope
    && (is_path (codes "/messages") path || is_path (codes "/messages/batch") path)
