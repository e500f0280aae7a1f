-- ===== src/BodyLimit/Tests.antt =====
-- Tests of the body budget of sql_query_api/middlewares/body_size_limit_middleware.py.
use secure_db_access_gateway.Prelude.{
  ℕ, ◌≤◌, ◌<◌, String, Option, none, List, [], ◌∷◌, ◌≡◌, refl, true, false, length,
}
use secure_db_access_gateway.BodyLimit.{
  Message, request, other, forward, reject, drain, Scope, call, content_length,
}
use secure_db_access_gateway.BodyLimit.Budget.{call-forward, call-reject, sent}

abbrev no_number : String → Option ℕ
no_number s = none

abbrev post : Scope
post = record { kind = "http"; path = "/graphql"; headers = [] }

abbrev sent_bytes : List ℕ
sent_bytes = 1 ∷ 2 ∷ 3 ∷ []

abbrev status : ℕ
status = 413

abbrev two_chunks : List Message
two_chunks = request (1 ∷ 2 ∷ []) true ∷ other ∷ request (3 ∷ []) false ∷ []

two_chunks_pass : call no_number 3 post two_chunks ≡ forward sent_bytes
unfolding call drain content_length
two_chunks_pass = refl

two_chunks_refused : call no_number 2 post two_chunks ≡ reject 413
unfolding call drain content_length
two_chunks_refused = refl

call-forward_example : (sent_bytes ≡ sent two_chunks) × (length sent_bytes ≤ 3)
call-forward_example = call-forward no_number 3 post two_chunks sent_bytes two_chunks_pass

call-reject_example : (status ≡ 413) × (2 < length (sent two_chunks))
unfolding content_length
call-reject_example = call-reject no_number 2 post two_chunks 413 refl two_chunks_refused
