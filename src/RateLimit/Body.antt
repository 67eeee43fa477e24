-- ===== src/RateLimit/Body.antt =====
-- src/api/rate_limit.py: `read_body` and `replay_body`. `receive` yields the events of a stream.
use abrio.Prelude.{
  ℕ, zero, suc, Bool, true, false, Option, none, some, List, [], ◌∷◌, ◌++◌, Text, if◌then◌else◌,
}

-- An ASGI event; a request's body is absent, or no bytes, as `none`.
pub data Event : Type 0 where
  disconnect : Event
  request : Option Text → Bool → Event

abbrev chunk_of : Option Text → Text
chunk_of none = []
chunk_of (some chunk) = chunk

-- The loop of `read_body` with the body so far: the body and the events not read, or nothing, if the
-- events end before the loop does and it waits.
unfoldable pub read_from : Text → List Event → Option (Text × List Event)
read_from body [] = none
read_from body (disconnect ∷ es) = some (body, es)
read_from body (request chunk more ∷ es) =
    let rest = read_from (body ++ chunk_of chunk) es in
    if more then rest else some (body ++ chunk_of chunk, es)

unfoldable pub read_body : List Event → Option (Text × List Event)
unfolding read_from
read_body = read_from []

-- The state of `replay_body`'s `receive`: whether the body was sent.
unfoldable pub replay_body : Text → Bool → Event × Bool
replay_body body true = (request (some []) false, true)
replay_body body false = (request (some body) false, true)

-- The first `n` events of the replay.
unfoldable pub replayed : Text → ℕ → Bool → List Event
unfolding replay_body
replayed body zero sent = []
replayed body (suc n) sent = let (e, sent') = replay_body body sent in e ∷ replayed body n sent'

abbrev pub is_final : Event → Bool
is_final disconnect = true
is_final (request chunk more) = if more then false else true

abbrev pub some_final : List Event → Bool
some_final [] = false
some_final (e ∷ es) = if is_final e then true else some_final es

-- The chunks up to and with the first final event.
abbrev pub sent_body : List Event → Text
sent_body [] = []
sent_body (disconnect ∷ es) = []
sent_body (request chunk true ∷ es) = chunk_of chunk ++ sent_body es
sent_body (request chunk false ∷ es) = chunk_of chunk
