-- ===== src/Opa/Config.antt =====
-- `OpaConfig` of sql_query_api/services/opa_policy_engine.py and its reading from the environment.
use secure_db_access_gateway.Prelude.{
  ℕ, String, Option, none, some, List, [], ◌∷◌, Bool, true, false, not, ◌&&◌, elem, if◌then◌else◌,
  Result, ok, raise, Exception, runtime_error, ◌>>=◌,
}
use secure_db_access_gateway.Prelude.Text
use secure_db_access_gateway.Prelude.Text.{lower, strip, is_set}
use secure_db_access_gateway.Secrets.{
  Reading, or_default, truthy_spellings, is_environment_production, is_ci, is_switched_on,
  read_secret,
}

-- Seconds are natural numbers; the code sets no other timeout than 5.0.
pub record OpaConfig : Type 0 where
  pub url : String
  pub timeout : ℕ
  pub enabled : Bool
  pub mtls_enabled : Bool
  pub mtls_cert_path : Option String
  pub mtls_key_path : Option String
  pub mtls_ca_path : Option String
  pub mtls_verify : Bool

abbrev pub given : Option String → String
given none = ""
given (some s) = s

abbrev pub is_given : Option String → Bool
is_given o = is_set (given o)

abbrev url_required : Exception
url_required =
    runtime_error
      "OPA_URL is required when ENVIRONMENT=production. Refusing to fall back to the deprecated in-process policy evaluator, which cannot enforce RBAC1 hierarchy or separation-of-duties. Set OPA_URL (e.g. http://opa:8181) with OPA_ENABLED=true, or set OPA_ENABLED=false explicitly to opt out."

abbrev pub off_spellings : List String
off_spellings = "false" ∷ "0" ∷ "no" ∷ "off" ∷ []

module _ (env : String → Option String) (disk : String → Reading) where
  -- The variable if it is not empty, else the secret: `os.getenv(name) or read_secret(name)`.
  abbrev or_secret : String → String → Result String
  or_secret name s = if is_set s then ok s else read_secret env disk name false "" none

  unfoldable pub optional : String → Result String
  optional name = or_secret name (or_default "" (env name))

  unfoldable pub read_url : Result String
  read_url = or_secret "OPA_URL" (strip (or_default "" (env "OPA_URL")))

  unfoldable pub read_enabled : Result String
  read_enabled = or_secret "OPA_ENABLED" (lower (strip (or_default "" (env "OPA_ENABLED"))))

  unfoldable pub disabled_config : OpaConfig
  disabled_config = record {
    url = "";
    timeout = 5;
    enabled = false;
    mtls_enabled = is_switched_on env "OPA_MTLS_ENABLED";
    mtls_cert_path = none;
    mtls_key_path = none;
    mtls_ca_path = none;
    mtls_verify = true;
  }

  -- What `from_environment` makes of the two settings and the three paths.
  unfoldable pub config_of : String → String → String → String → String → Result OpaConfig
  config_of raw_url raw_enabled cert key ca =
      if not (is_set raw_url)
      then (if is_environment_production env
            && not (elem raw_enabled off_spellings)
            && not (is_ci env)
          then raise url_required
          else ok disabled_config)
      else ok (record {
        url = Text.rstrip_chars (b'/' ∷ []) raw_url;
        timeout = 5;
        enabled = elem raw_enabled truthy_spellings;
        mtls_enabled = is_switched_on env "OPA_MTLS_ENABLED";
        mtls_cert_path = some cert;
        mtls_key_path = some key;
        mtls_ca_path = some ca;
        mtls_verify = not (
            elem (lower (strip (or_default "" (env "OPA_MTLS_VERIFY"))))
              ("false" ∷ "0" ∷ "no" ∷ []));
      })

  -- OpaConfig.from_environment
  unfoldable pub from_environment : Result OpaConfig
  from_environment = do
    raw_url ← read_url
    raw_enabled ← read_enabled
    cert ← optional "OPA_MTLS_CERT_PATH"
    key ← optional "OPA_MTLS_KEY_PATH"
    ca ← optional "OPA_MTLS_CA_PATH"
    config_of raw_url raw_enabled cert key ca
