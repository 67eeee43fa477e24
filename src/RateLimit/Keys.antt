-- ===== src/RateLimit/Keys.antt =====
-- The keys of one request (src/api/rate_limit.py). The script reads every bucket before it writes
-- one, so two charges to one key would lose a write.
use mathlib.Core.List.{append_cancel_left}
use abrio.Prelude.{
  ℕ, zero, suc, ◌+◌, ◌≡◌, refl, inl, inr, Bool, true, false, ◌&&◌, not, Option, some, List, [], ◌∷◌,
  ◌++◌, map, Text, codes, All, Bool-cases, arith, if◌then◌else◌, subst, sym,
}
use abrio.Prelude.Texts.{same, same→eq, clash, append-clash}
use abrio.Config.{Settings}
use abrio.RateLimit.Rules
use abrio.RateLimit.Charging.{Separate, Others}
use abrio.RateLimit.Limiter.{ResolvedRateLimit, charge_for, key_for}
use abrio.RateLimit.Scope.{
  Library, Scope, Fields, get_client_identity, relative_api_path, is_express, get,
  count_batch_priorities, user_identity_from_query, user_identity_from_user_path,
  user_identity_from_payload,
}
use abrio.RateLimit.Resolve

-- A rule's name with the colon that ends it in a key.
abbrev pub tag : ResolvedRateLimit → Text
tag b = b.rule.name ++ codes ":"

abbrev pub no_clash : Text → List ResolvedRateLimit → Bool
no_clash t [] = true
no_clash t (b ∷ bs) = not (clash (tag b) t) && no_clash t bs

abbrev pub clear : List ResolvedRateLimit → Bool
clear [] = true
clear (b ∷ bs) = no_clash (tag b) bs && clear bs

key-clash :
    (p : Text) (b c : ResolvedRateLimit)
    → same (key_for p b) (key_for p c) ≡ true
    → clash (tag b) (tag c) ≡ true
unfolding key_for
key-clash p b c h = append-clash (tag b) (tag c) b.identity c.identity (
    append_cancel_left (p ++ codes ":") (tag b ++ b.identity) (tag c ++ c.identity)
      (same→eq (key_for p b) (key_for p c) h))

no_clash-Others :
    (p : Text) (b : ResolvedRateLimit) (bs : List ResolvedRateLimit)
    → no_clash (tag b) bs ≡ true
    → Others (charge_for p b).key (map (charge_for p) bs)
unfolding charge_for
no_clash-Others p b [] h = tt
no_clash-Others p b (c ∷ cs) h = elim (Bool-cases (same (key_for p c) (key_for p b))) [
  | inl e ↦ absurd (ground (arith, key-clash p c b e, h))
  | inr e ↦ (e, no_clash-Others p b cs (ground (arith, h)))
]

pub clear-Separate :
    (p : Text) (bs : List ResolvedRateLimit) → clear bs ≡ true → Separate (map (charge_for p) bs)
clear-Separate p [] h = tt
clear-Separate p (b ∷ bs) h =
    (no_clash-Others p b bs (ground (arith, h)), clear-Separate p bs (ground (arith, h)))

-- Every bucket list that the source builds is clear.
pub if_lem : {A : Type 0} (P : A → Type 0) (b : Bool) (x y : A) → P x → P y → P (if b then x else y)
if_lem P true x y h k = h
if_lem P false x y h k = k

abbrev Clear : List ResolvedRateLimit → Type 0
Clear bs = clear bs ≡ true

single-Clear :
    (s : Settings) (express : Bool) (identity : Text)
    → Clear (
        Resolve.message_limits s express identity 1
        ++ (Resolve.system_message_limits s 1 ++ Resolve.system_request_limits s))
unfolding Resolve.message_limits Resolve.system_message_limits Resolve.system_request_limits
    Rules.message_submission_rule Rules.global_message_submission_rule Rules.system_messages_rule
    Rules.system_requests_rule
single-Clear s true identity = refl
single-Clear s false identity = refl

batch-Clear :
    (s : Settings) (identity : Text) (normal express total : ℕ)
    → Clear (
        Resolve.limited (Rules.batch_requests_rule s) identity 1
        ∷ Resolve.limited (Rules.global_batch_requests_rule s) Resolve.global_identity 1
        ∷ (Resolve.counted (Resolve.message_limits s false identity) normal
            ++ (Resolve.counted (Resolve.message_limits s true identity) express
                ++ (Resolve.counted (Resolve.system_message_limits s) total
                    ++ Resolve.system_request_limits s))))
unfolding Resolve.message_limits Resolve.system_message_limits Resolve.system_request_limits
    Rules.batch_requests_rule Rules.global_batch_requests_rule Rules.message_submission_rule
    Rules.global_message_submission_rule Rules.system_messages_rule Rules.system_requests_rule
batch-Clear s i zero zero zero = refl
batch-Clear s i zero zero (suc t) = refl
batch-Clear s i zero (suc e) zero = refl
batch-Clear s i zero (suc e) (suc t) = refl
batch-Clear s i (suc n) zero zero = refl
batch-Clear s i (suc n) zero (suc t) = refl
batch-Clear s i (suc n) (suc e) zero = refl
batch-Clear s i (suc n) (suc e) (suc t) = refl

endpoint-Clear :
    (s : Settings) (i : Text)
    → Clear (
        Resolve.endpoint_limits
          (Rules.message_reports_rule s)
          i
          (Rules.global_message_reports_rule s)
          s)
      × Clear (
          Resolve.endpoint_limits
            (Rules.message_status_rule s)
            i
            (Rules.global_message_status_rule s)
            s)
      × Clear (
          Resolve.endpoint_limits
            (Rules.user_creates_rule s)
            i
            (Rules.global_user_creates_rule s)
            s)
      × Clear
          (Resolve.endpoint_limits (Rules.user_reads_rule s) i (Rules.global_user_reads_rule s) s)
      × Clear
          (Resolve.endpoint_limits (Rules.user_writes_rule s) i (Rules.global_user_writes_rule s) s)
      × Clear (Resolve.endpoint_limits (Rules.pricing_rule s) i (Rules.global_pricing_rule s) s)
unfolding Resolve.endpoint_limits Resolve.system_request_limits Rules.system_requests_rule
    Rules.message_reports_rule Rules.global_message_reports_rule Rules.message_status_rule
    Rules.global_message_status_rule Rules.user_creates_rule Rules.global_user_creates_rule
    Rules.user_reads_rule Rules.global_user_reads_rule Rules.user_writes_rule
    Rules.global_user_writes_rule Rules.pricing_rule Rules.global_pricing_rule
endpoint-Clear s i = (refl, refl, refl, refl, refl, refl)

system-Clear : (s : Settings) → Clear (Resolve.system_request_limits s)
unfolding Resolve.system_request_limits Rules.system_requests_rule
system-Clear s = refl

first_match-Clear :
    (cases : List (Bool × List ResolvedRateLimit)) (otherwise : List ResolvedRateLimit)
    → All (λ c. Clear c.1) cases
    → Clear otherwise
    → Clear (Resolve.first_match cases otherwise)
unfolding Resolve.first_match
first_match-Clear [] otherwise h k = k
first_match-Clear ((true, limits) ∷ cases) otherwise h k = h.0
first_match-Clear ((false, limits) ∷ cases) otherwise h k = first_match-Clear cases otherwise h.1 k

cases-Clear :
    (lib : Library) (s : Settings) (scope : Scope) (path : Text) (payload : Fields)
    → All (λ c. Clear c.1) (Resolve.path_cases lib s scope path payload)
unfolding Resolve.path_cases Resolve.resolve_single_message_limits
    Resolve.resolve_batch_message_limits Resolve.batch_limits
cases-Clear lib s scope path payload =
    let client = get_client_identity scope in
    let reader = endpoint-Clear s (Resolve.or_else (user_identity_from_query lib scope) client) in
    let writer =
      endpoint-Clear s (Resolve.or_else (user_identity_from_user_path lib path) client) in
    let sender = Resolve.or_else (user_identity_from_payload lib payload) client in
    let counts = count_batch_priorities (get (codes "messages") payload) in
    let own = endpoint-Clear s client in
    (
      single-Clear s (is_express (get (codes "priority") payload)) sender,
      (
        batch-Clear s sender counts.0 counts.1 (counts.0 + counts.1),
        (reader.0, (reader.0, (reader.1, (own.2, (own.3, (writer.4, (own.5, tt))))))),
      ),
    )

path-Clear :
    (lib : Library) (s : Settings) (scope : Scope) (path : Text) (payload : Fields)
    → Clear (Resolve.resolve_path lib s scope path payload)
unfolding Resolve.resolve_path
path-Clear lib s scope path payload =
    first_match-Clear (Resolve.path_cases lib s scope path payload)
      (Resolve.system_request_limits s) (cases-Clear lib s scope path payload) (system-Clear s)

found-Clear :
    (lib : Library) (s : Settings) (scope : Scope) (body : Text) (path : Option Text)
    (bs : List ResolvedRateLimit)
    → Resolve.resolve_found lib s scope body path ≡ some bs
    → Clear bs
found-Clear lib s scope body path bs h =
    elim (Resolve.resolve_found-some lib s scope body path bs h) [
      | inl e ↦ subst Clear (sym e) refl
      | inr (p, payload, e) ↦ subst Clear (sym e) (path-Clear lib s scope p payload)
    ]

-- No request whose buckets are resolved, whatever its path, body and settings, is charged twice to
-- one key of the limiter.
pub resolve_rate_limits-Separate :
    (lib : Library) (scope : Scope) (s : Settings) (body key_prefix : Text)
    (bs : List ResolvedRateLimit)
    → Resolve.resolve_rate_limits lib scope s body ≡ some bs
    → Separate (map (charge_for key_prefix) bs)
unfolding Resolve.resolve_rate_limits
resolve_rate_limits-Separate lib scope s body p bs h =
    clear-Separate p bs (found-Clear lib s scope body (relative_api_path scope s) bs h)
