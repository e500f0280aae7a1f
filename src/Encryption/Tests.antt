-- ===== src/Encryption/Tests.antt =====
-- Tests of sql_query_api/services/encryption.py with a toy cipher, which puts the key's length before
-- the text, and one text for one document.
use secure_db_access_gateway.Prelude.{
  String, Option, none, some, [], ◌∷◌, ◌++◌, length, Result, ok, raise, ◌>>=◌, ◌≡◌, refl,
}
use secure_db_access_gateway.Prelude.Text.{lower}
use native.Mathlib.Decide.{dec_le}
use secure_db_access_gateway.Prelude.{◌==◌, if◌then◌else◌, ltb, value_error}
use secure_db_access_gateway.Prelude.Json.{Json, obj}
use secure_db_access_gateway.Encryption.{
  EncryptedData, document_of, serialize_encrypted, deserialize_encrypted, Bytes, AesGcm,
  KekSettings, local, local_kek, encrypt, decrypt, get_kek_from_environment,
}
use secure_db_access_gateway.Encryption.RoundTrip.{Decodes, decrypt-deserialize-serialize-encrypt}

abbrev rest : Bytes → Result Bytes
rest [] = ok []
rest (x ∷ xs) = ok xs

abbrev aes : AesGcm
aes = record {
  encrypt = λ key nonce plaintext associated_data. length key ∷ plaintext;
  decrypt = λ key nonce ciphertext associated_data. rest ciphertext;
  decrypt-encrypt = λ key nonce plaintext associated_data. refl;
}

abbrev nonce : Bytes
nonce = 1 ∷ 2 ∷ 3 ∷ 4 ∷ 5 ∷ 6 ∷ 7 ∷ 8 ∷ 9 ∷ 10 ∷ 11 ∷ 12 ∷ []

abbrev nothing_set : KekSettings
nothing_set = record {
  kek_type = some "AWS-KMS";
  aws_kms_key_id = some "k";
  aws_kms_region = none;
  gcp_kms_key_id = none;
  vault_key_name = none;
  vault_addr = none;
  vault_token = none;
}

-- An unknown kind falls to the local key.
unknown_kind : get_kek_from_environment nothing_set ≡ ok local
unfolding get_kek_from_environment lower dec_le
unknown_kind = refl

abbrev encrypted : EncryptedData
encrypted =
    encrypt aes (local_kek aes "dev" (9 ∷ 9 ∷ [])) (7 ∷ []) nonce nonce (104 ∷ 105 ∷ []) none

-- Base64 and JSON on the texts of this one value.
abbrev b64encode : Bytes → String
b64encode b =
    if ltb (length b) 12 then "ciphertext" else if ltb 12 (length b) then "wrapped" else "nonce"

abbrev b64decode : String → Result Bytes
b64decode s =
    if s == "ciphertext"
    then ok (1 ∷ 104 ∷ 105 ∷ [])
    else if s == "wrapped"
    then ok (nonce ++ 2 ∷ 7 ∷ [])
    else if s == "nonce"
    then ok nonce
    else raise (value_error "")

abbrev dumps : Json → String
dumps v = "{}"

abbrev loads : String → Option Json
loads s = some (obj (document_of b64encode b64decode dumps (λ t. none) encrypted))

encrypted-Decodes : Decodes b64encode b64decode dumps loads encrypted
unfolding document_of encrypt local_kek
encrypted-Decodes = (refl, refl, refl, refl)

decrypt-deserialize-serialize-encrypt_example :
    (deserialize_encrypted b64encode b64decode dumps loads
        (serialize_encrypted b64encode b64decode dumps loads encrypted)
      >>= λ stored. decrypt aes (local_kek aes "dev" (9 ∷ 9 ∷ [])) stored none)
    ≡ ok (104 ∷ 105 ∷ [])
decrypt-deserialize-serialize-encrypt_example =
    decrypt-deserialize-serialize-encrypt b64encode b64decode dumps loads aes "dev" (9 ∷ 9 ∷ [])
      (7 ∷ []) nonce nonce (104 ∷ 105 ∷ []) none refl encrypted-Decodes
