-- ===== src/Secrets.antt =====
-- shared/shared_secrets/secrets.py: where a secret comes from, and the two tests of the environment.
-- `env` is `os.getenv`, `none` for a variable that is not set; `disk` is what opening and reading a
-- path gives. Warnings are left out.
pub mod Sources
mod Tests
use secure_db_access_gateway.Prelude.{
  String, Option, none, some, List, [], ◌∷◌, Bool, true, false, any, elem, if◌then◌else◌, Result,
  ok, raise, Exception, missing_secret, runtime_error, ◌>>=◌,
}
use secure_db_access_gateway.Prelude.Text
use secure_db_access_gateway.Prelude.Text.{lower, strip, is_set, contains}

-- What reading a file ends in: its content, `FileNotFoundError`, or another `OSError`.
pub data Reading : Type 0 where
  content : String → Reading
  missing : Reading
  unreadable : Reading

-- os.getenv(name, default)
abbrev pub or_default : String → Option String → String
or_default default none = default
or_default default (some s) = s

abbrev pub truthy_spellings : List String
truthy_spellings = "true" ∷ "1" ∷ "yes" ∷ []

module _ (env : String → Option String) where
  unfoldable pub is_environment_production : Bool
  is_environment_production =
      elem (lower (or_default "production" (env "ENVIRONMENT"))) ("production" ∷ "prod" ∷ [])

  -- os.getenv(name, "").strip().lower() in {"true", "1", "yes"}
  unfoldable pub is_switched_on : String → Bool
  is_switched_on name = elem (lower (strip (or_default "" (env name)))) truthy_spellings

  unfoldable pub is_ci : Bool
  unfolding is_switched_on
  is_ci =
      if is_switched_on "GITHUB_ACTIONS"
      then true
      else any is_switched_on ("CI" ∷ "CONTINUOUS_INTEGRATION" ∷ "BUILD_NUMBER" ∷ [])

  -- _source_file
  unfoldable pub source_file : String → Option String
  source_file name =
      let path = strip (or_default "" (env (Text.concat name "_FILE"))) in
      if is_set path then (if contains ".." path then none else some path) else none

  module _ (disk : String → Reading) where
    read_as : String → String → Reading → Result String
    read_as path name (content s) = ok s
    read_as path name missing = ok ""
    read_as path name unreadable = raise (
        runtime_error (
          Text.concat "Unable to read secret file for '"
            (Text.concat name (Text.concat "' at " (Text.concat path ".")))))

    -- _read_file
    unfoldable pub read_file : String → String → Result String
    unfolding read_as
    read_file path name = read_as path name (disk path)

    -- read_file_secret
    unfoldable pub read_file_secret : String → Result String
    unfolding read_file
    read_file_secret path = do s ← read_file path path; ok (strip s)

    -- A value with more than spaces, trimmed, and what comes next without one.
    abbrev pub or_next : String → Result String → Result String
    or_next s next = if is_set (strip s) then ok (strip s) else next

    abbrev default_message : String → String
    default_message name = Text.concat "Required secret '" (
        Text.concat name (
          Text.concat "' is not set. Provide '"
            (Text.concat name (Text.concat "' or '" (Text.concat name "_FILE'.")))))

    -- error_message or f"..."
    abbrev required_message : String → Option String → String
    required_message name none = default_message name
    required_message name (some message) = if is_set message then message else default_message name

    -- The last source: the default, or the error of a required secret.
    unfoldable pub fallback : String → Bool → String → Option String → Result String
    fallback name required default error_message =
        if required
        then raise (missing_secret (required_message name error_message))
        else ok default

    unfoldable pub from_file : String → Option String → Result String → Result String
    from_file name none next = next
    from_file name (some path) next = read_file path name >>= λ s. or_next s next

    -- read_secret
    unfoldable pub read_secret : String → Bool → String → Option String → Result String
    unfolding source_file
    read_secret name required default error_message =
        or_next (or_default "" (env name))
          (from_file name (source_file name) (fallback name required default error_message))
