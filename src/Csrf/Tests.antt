-- ===== src/Csrf/Tests.antt =====
-- Tests of auth0_api/app/security/csrf.py with a parser that knows one URL.
use secure_db_access_gateway.Prelude.{
  ℕ, String, Option, none, some, [], true, false, ◌==◌, if◌then◌else◌, elem, ◌≡◌, ◌↔◌, refl, In,
  here,
}
use secure_db_access_gateway.Prelude.Text.{strip, lstrip, rstrip, lower}
use secure_db_access_gateway.Prelude.Json.{Json, str, Fields, end, field, get}
use secure_db_access_gateway.Csrf.{
  Url, Settings, Request, csrf_cookie_name, session_token, normalize_origin, add_origin,
  add_origins, get_allowed_origins, origin_from_header, request_origin_is_allowed,
  csrf_failure_reason, Cookie, set_csrf_cookie,
}
use secure_db_access_gateway.Csrf.Layers.{Shows, csrf_safe_iff, set_cookie_accepted}
use native.Mathlib.Decide.{dec_le}

abbrev urlparse : String → Option Url
urlparse url =
    if url == "https://app.test"
    then some (record { scheme = "https"; hostname = "app.test"; port = 0 })
    else none

abbrev decimal : ℕ → String
decimal n = "8080"

abbrev render : Json → String
render v = "?"

abbrev settings : Settings
settings = record {
  allowed_origins = [];
  react_app_url = "https://app.test";
  frontend_url = "";
  session_cookie_secure = false;
  session_max_age = 3600;
}

abbrev session : Option Fields
session = some (field "csrf_token" (str "t0k3n") end)

abbrev csrf_cookie : Cookie urlparse decimal render
csrf_cookie = record {
  key = "csrf_token";
  value = "t0k3n";
  max_age = 3600;
  secure = false;
  httponly = false;
  samesite = "lax";
}

abbrev headers : String → Option String
headers name =
    if name == "x-requested-with"
    then some "XMLHttpRequest"
    else if name == "Origin"
    then some "https://app.test"
    else if name == "X-CSRF-Token"
    then some "t0k3n"
    else none

abbrev cookies : String → Option String
cookies name = if name == "csrf_token" then some "t0k3n" else none

abbrev request : Request
request = record { header = headers; cookie = cookies }

origin_trusted : request_origin_is_allowed urlparse decimal settings request ≡ true
unfolding request_origin_is_allowed origin_from_header get_allowed_origins add_origins add_origin
    normalize_origin strip lstrip rstrip lower dec_le elem
origin_trusted = refl

cookie_set : set_csrf_cookie urlparse decimal render settings session ≡ some csrf_cookie
unfolding set_csrf_cookie session_token csrf_cookie_name get
cookie_set = refl

csrf_safe_iff_example :
    (csrf_failure_reason urlparse decimal render settings request session ≡ none)
    ↔ Shows urlparse decimal render settings request session
csrf_safe_iff_example = csrf_safe_iff urlparse decimal render settings request session

set_cookie_accepted_example :
    csrf_failure_reason urlparse decimal render settings request session ≡ none
unfolding session_token get
set_cookie_accepted_example =
    set_cookie_accepted urlparse decimal render settings request session "t0k3n" csrf_cookie refl
      cookie_set refl origin_trusted refl refl refl

app_allowed : In "https://app.test" (get_allowed_origins urlparse decimal settings)
unfolding get_allowed_origins add_origins add_origin normalize_origin strip lstrip rstrip elem
app_allowed = here refl
