-- ===== src/BodyLimit.antt =====
-- sql_query_api/middlewares/body_size_limit_middleware.py: the budget of a GraphQL request body.
-- The ASGI channel is the list of the messages that it will give; `int_of` is Python's `int()` of a
-- header value, `none` where that raises or is negative (which is no more than any budget).
pub mod Budget
mod Tests
use secure_db_access_gateway.Prelude.{
  ℕ, zero, suc, String, Option, none, some, List, [], ◌∷◌, ◌++◌, Bool, true, false, not, ◌||◌, ◌==◌,
  ltb, length, if◌then◌else◌, starts_with,
}
use secure_db_access_gateway.Prelude.Text.{lower}

pub data Message : Type 0 where
  disconnect : Message
  request : (body : List ℕ) (more_body : Bool) → Message
  other : Message

-- `forward` hands the drained body to the application; `pending` waits for a message.
pub data Outcome : Type 0 where
  bypass : Outcome
  forward : (payload : List ℕ) → Outcome
  reject : ℕ → Outcome
  dropped : Outcome
  pending : (body : List ℕ) → Outcome

-- The loop that drains the channel.
unfoldable pub drain : ℕ → List ℕ → List Message → Outcome
drain max_bytes body [] = pending body
drain max_bytes body (disconnect ∷ ms) = dropped
drain max_bytes body (other ∷ ms) = drain max_bytes body ms
drain max_bytes body (request chunk more ∷ ms) =
    let rest = drain max_bytes (body ++ chunk) ms in
    if ltb max_bytes (length (body ++ chunk))
    then reject 413
    else if more
    then rest
    else forward (body ++ chunk)

-- BodySizeLimitMiddleware._content_length
unfoldable pub content_length : (String → Option ℕ) → List (String × String) → Option ℕ
content_length int_of [] = none
content_length int_of ((name, value) ∷ headers) =
    let rest = content_length int_of headers in
    if lower name == "content-length" then int_of value else rest

abbrev pub exceeds : ℕ → Option ℕ → Bool
exceeds max_bytes none = false
exceeds max_bytes (some n) = ltb max_bytes n

pub record Scope : Type 0 where
  pub kind : String
  pub path : String
  pub headers : List (String × String)

-- BodySizeLimitMiddleware.__call__
unfoldable pub call : (String → Option ℕ) → ℕ → Scope → List Message → Outcome
unfolding content_length
call int_of max_bytes s ms =
    if not (s.kind == "http") || not (starts_with s.path "/graphql")
    then bypass
    else if exceeds max_bytes (content_length int_of s.headers)
    then reject 413
    else drain max_bytes [] ms

-- The channel that the application reads instead: the whole payload once, then a disconnect. The
-- argument counts the reads before.
unfoldable pub replay_receive : List ℕ → ℕ → Message
replay_receive payload zero = request payload false
replay_receive payload (suc n) = disconnect
