-- ===== src/Correlation.antt =====
-- `correlation_id_middleware` of sql_query_api/middlewares/correlation_middleware.py and
-- `sanitize_correlation_id` of sql_query_api/config/app_logger.py. `call_next` is the application: it
-- reads the identifier of the context. The new identifier, the text of the duration and the response
-- to an exception are arguments; metrics, tracing and logging are left out,
-- and so is the reset of the context at the end.
pub mod Identifier
mod Tests
use Prim.Native.Char.{Char}
use Prim.Native.String.{count}
use secure_db_access_gateway.Prelude.{
  String, Option, none, some, List, [], ◌∷◌, Bool, true, false, ◌&&◌, leb, if◌then◌else◌,
}
use secure_db_access_gateway.Prelude.Text.{is_set}
use secure_db_access_gateway.Prelude.Dict.{lookup, insert, string_eq}
use secure_db_access_gateway.Tenant.{id_char, every_char}

-- ^[A-Za-z0-9._-]{1,128}$
abbrev pub is_safe_id : String → Bool
is_safe_id s = is_set s && every_char id_char s && leb (count s) 128

-- sanitize_correlation_id
unfoldable pub sanitize_correlation_id : Option String → Option String
sanitize_correlation_id none = none
sanitize_correlation_id (some value) = if is_safe_id value then some value else none

-- `a or b` of a text that may be missing
abbrev pub or_id : Option String → String → String
or_id none b = b
or_id (some a) b = if is_set a then a else b

abbrev pub Headers : Type 0
Headers = List (String × String)

-- request.state.correlation_id and the headers, by their names in lower case
pub record Request : Type 0 where
  pub state_id : Option String
  pub headers : Headers

pub record Response : Type 0 where
  pub status : String
  pub headers : Headers

pub data Answer : Type 0 where
  returned : Response → Answer
  raised : (message : String) → Answer

unfoldable pub correlation_id_of : String → Request → String
unfolding sanitize_correlation_id
correlation_id_of new_id request = or_id request.state_id (
    or_id (sanitize_correlation_id (lookup "x-correlation-id" request.headers))
      (or_id (sanitize_correlation_id (lookup "x-request-id" request.headers)) new_id))

-- The headers of a response, and those of the answer to an exception.
unfoldable pub with_identifier : (String → Response) → String → String → Answer → Response
with_identifier server_error correlation_id duration (returned response) = record response {
  headers = insert "x-query-status" "Success" (
      insert "x-execution-time" duration (
        insert "x-request-id" correlation_id
          (insert "x-correlation-id" correlation_id response.headers)));
}
with_identifier server_error correlation_id duration (raised message) =
    let response = server_error message in
    record response {
      headers = insert "x-request-id" correlation_id (
          insert "x-correlation-id" correlation_id
            (insert "x-query-status" "Error" response.headers));
    }

unfoldable pub correlation_id_middleware :
    (String → Response) → (String → Request → Answer) → String → String → Request → Response
unfolding with_identifier correlation_id_of
correlation_id_middleware server_error call_next new_id duration request =
    let correlation_id = correlation_id_of new_id request in
    let state = record request { state_id = some correlation_id } in
    with_identifier server_error correlation_id duration (call_next correlation_id state)
