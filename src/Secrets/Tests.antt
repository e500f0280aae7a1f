-- ===== src/Secrets/Tests.antt =====
-- Tests of shared/shared_secrets/secrets.py with one file and no variable but its name.
use secure_db_access_gateway.Prelude.{
  String, Option, none, some, true, false, if◌then◌else◌, ok, ◌≡◌, refl, ◌⊎◌, ◌==◌, elem,
}
use native.Mathlib.Decide.{dec_le}
use secure_db_access_gateway.Prelude.Text.{strip, lstrip, rstrip, is_set, contains, lower}
use secure_db_access_gateway.Secrets.{
  Reading, content, missing, or_default, source_file, read_file, from_file, read_secret, is_ci,
  is_switched_on,
}
use secure_db_access_gateway.Secrets.Sources.{required_secret, Held}

abbrev env : String → Option String
env name =
    if name == "KEY_FILE"
    then some "/run/secrets/key"
    else (if name == "CI" then some "false" else none)

abbrev disk : String → Reading
disk path = if path == "/run/secrets/key" then content " s3cret\n" else missing

key_read : read_secret env disk "KEY" true "" none ≡ ok "s3cret"
unfolding read_secret source_file from_file read_file strip lstrip rstrip contains
key_read = refl

ci_false : is_ci env ≡ false
unfolding is_ci is_switched_on strip lstrip rstrip lower elem dec_le
ci_false = refl

required_secret_example :
    (is_set "s3cret" ≡ true)
    × (("s3cret" ≡ strip (or_default "" (env "KEY")))
        ⊎ ((is_set (strip (or_default "" (env "KEY"))) ≡ false)
            × Held env disk "KEY" (source_file env "KEY") "s3cret"))
required_secret_example = required_secret env disk "KEY" "" "s3cret" none key_read
