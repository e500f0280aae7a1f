-- ===== src/BodyLimit/Budget.antt =====
-- What passes the body budget of sql_query_api/middlewares/body_size_limit_middleware.py.
use secure_db_access_gateway.Prelude.{
  ℕ, suc, ◌≤◌, ◌<◌, String, Option, List, [], ◌∷◌, ◌++◌, true, false, length, if◌then◌else◌, ◌≡◌,
  arith, refl, length-append,
}
use mathlib.Core.List.{append_assoc}
use secure_db_access_gateway.BodyLimit.{
  Message, disconnect, request, other, forward, reject, drain, content_length, Scope, call,
  replay_receive, exceeds,
}

-- The bytes that the client has sent up to the end of the body: the chunks up to the first message
-- without `more_body`.
unfoldable pub sent : List Message → List ℕ
sent [] = []
sent (disconnect ∷ ms) = []
sent (other ∷ ms) = sent ms
sent (request chunk more ∷ ms) = let rest = chunk ++ sent ms in if more then rest else chunk

drain-forward :
    (n : ℕ) (body : List ℕ) (ms : List Message) (payload : List ℕ)
    → drain n body ms ≡ forward payload
    → (payload ≡ body ++ sent ms) × (length payload ≤ n)
unfolding drain sent
drain-forward n body [] payload h = cc
drain-forward n body (disconnect ∷ ms) payload h = cc
drain-forward n body (other ∷ ms) payload h = drain-forward n body ms payload h
drain-forward n body (request chunk true ∷ ms) payload h =
    ground (arith, drain-forward n (body ++ chunk) ms payload, append_assoc body chunk (sent ms))
drain-forward n body (request chunk false ∷ ms) payload h = ground arith

drain-reject :
    (n : ℕ) (body : List ℕ) (ms : List Message) (status : ℕ)
    → drain n body ms ≡ reject status
    → (status ≡ 413) × (n < length (body ++ sent ms))
unfolding drain sent
drain-reject n body [] status h = cc
drain-reject n body (disconnect ∷ ms) status h = cc
drain-reject n body (other ∷ ms) status h = drain-reject n body ms status h
drain-reject n body (request chunk true ∷ ms) status h = ground (
  arith,
  drain-reject n (body ++ chunk) ms status,
  append_assoc body chunk (sent ms),
  length-append (body ++ chunk) (sent ms),
)
drain-reject n body (request chunk false ∷ ms) status h = ground arith

module _ (int_of : String → Option ℕ) (n : ℕ) (s : Scope) (ms : List Message) where
  -- The application behind the budget is given the body exactly as it was sent, and never more
  -- bytes than the budget.
  pub call-forward :
      (payload : List ℕ)
      → call int_of n s ms ≡ forward payload
      → (payload ≡ sent ms) × (length payload ≤ n)
  unfolding call
  call-forward payload h = ground (arith, drain-forward n [] ms payload)

  -- A GraphQL request that announces no length, or one within the budget, is refused only with 413,
  -- and only for a body that is over the budget.
  pub call-reject :
      (status : ℕ)
      → exceeds n (content_length int_of s.headers) ≡ false
      → call int_of n s ms ≡ reject status
      → (status ≡ 413) × (n < length (sent ms))
  unfolding call
  call-reject status announced h = ground (arith, drain-reject n [] ms status)

  -- Reading the channel that the application is given instead drains to the same payload, and any
  -- later read is a disconnect.
  pub replay_lem :
      (payload : List ℕ) (rest : List Message) (later : ℕ)
      → call int_of n s ms ≡ forward payload
      → (drain n [] (replay_receive payload 0 ∷ rest) ≡ forward payload)
        × (replay_receive payload (suc later) ≡ disconnect)
  unfolding drain replay_receive
  replay_lem payload rest later h =
      let (same, small) = call-forward payload h in (ground arith, refl)
