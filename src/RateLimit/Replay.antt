-- ===== src/RateLimit/Replay.antt =====
-- Reading and replaying a body (src/api/rate_limit.py).
use abrio.Prelude.{
  ℕ, suc, ◌≡◌, refl, sym, ap, ◌∙◌, true, false, none, some, List, [], ◌∷◌, ◌++◌, Text,
}
use mathlib.Core.List.{append_assoc, append-nil}
use abrio.RateLimit.Body.{
  Event, disconnect, request, read_from, read_body, replay_body, replayed, some_final, sent_body,
}

read_from-final :
    (body : Text) (es : List Event)
    → some_final es ≡ true
    → (rest : List Event) × (read_from body es ≡ some (body ++ sent_body es, rest))
unfolding read_from
read_from-final body [] h = cc
read_from-final body (disconnect ∷ es) h = (es, ap (λ b. some (b, es)) (sym (append-nil body)))
read_from-final body (request none true ∷ es) h =
    let (rest, e) = read_from-final (body ++ []) es h in
    (rest, e ∙ ap (λ b. some (b, rest)) (append_assoc body [] (sent_body es)))
read_from-final body (request (some c) true ∷ es) h =
    let (rest, e) = read_from-final (body ++ c) es h in
    (rest, e ∙ ap (λ b. some (b, rest)) (append_assoc body c (sent_body es)))
read_from-final body (request chunk false ∷ es) h = (es, refl)

read_from-waits : (body : Text) (es : List Event) → some_final es ≡ false → read_from body es ≡ none
unfolding read_from
read_from-waits body [] h = refl
read_from-waits body (disconnect ∷ es) h = cc
read_from-waits body (request none true ∷ es) h = read_from-waits (body ++ []) es h
read_from-waits body (request (some c) true ∷ es) h = read_from-waits (body ++ c) es h
read_from-waits body (request chunk false ∷ es) h = cc

-- The reading of a body ends exactly if a final event comes, and then gives the chunks up to and
-- with that event.
pub read_body_lem :
    (es : List Event)
    → (some_final es ≡ true → (rest : List Event) × (read_body es ≡ some (sent_body es, rest)))
      × (some_final es ≡ false → read_body es ≡ none)
unfolding read_body
read_body_lem es = (read_from-final [] es, read_from-waits [] es)

-- A replayed body reads as the body, and what is replayed after it as no body.
pub read_body-replayed :
    (body : Text) (n : ℕ)
    → (read_body (replayed body (suc n) false) ≡ some (body, replayed body n true))
      × (read_body (replayed body (suc n) true) ≡ some ([], replayed body n true))
unfolding read_body read_from replayed replay_body
read_body-replayed body n = (refl, refl)
