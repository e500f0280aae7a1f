-- ===== src/Encryption.antt =====
-- sql_query_api/services/encryption.py: envelope encryption, its stored form, and the choice of the key
-- that wraps. AES-GCM is the interface `AesGcm`; bytes are lists of numbers; the random bytes are
-- arguments. The clients of the key services are the parameters of `KeyEncryptionKey`.
pub mod RoundTrip
mod Tests
use secure_db_access_gateway.Prelude.{
  ℕ, String, Option, none, some, List, [], ◌∷◌, ◌++◌, Bool, true, false, ◌&&◌, ◌==◌, not,
  if◌then◌else◌, Result, ok, raise, raise_if, ◌>>=◌, ◌>>◌, Exception, value_error, type_error,
  runtime_error, ◌≡◌,
}
use secure_db_access_gateway.Prelude.Text.{lower, is_set}
use secure_db_access_gateway.Prelude.Json.{Json, null, str, obj, Fields, end, field, get, has_key}
use secure_db_access_gateway.Repository.Fetch.{take, drop}

abbrev pub Bytes : Type 0
Bytes = List ℕ

-- AES-GCM: what is encrypted can be decrypted under the same key, nonce and associated data.
pub record AesGcm : Type 0 where
  pub encrypt : (key nonce plaintext : Bytes) → Option Bytes → Bytes
  pub decrypt : (key nonce ciphertext : Bytes) → Option Bytes → Result Bytes
  pub decrypt-encrypt :
      (key nonce plaintext : Bytes) (associated_data : Option Bytes)
      → decrypt key nonce (encrypt key nonce plaintext associated_data) associated_data
        ≡ ok plaintext

pub record EncryptedData : Type 0 where
  pub ciphertext : Bytes
  pub wrapped_dek : Bytes
  pub nonce : Bytes
  pub kek_id : String
  pub algorithm : String

-- The interface of the wrapping keys; a wrap may use random bytes.
pub record KeyEncryptionKey : Type 0 where
  pub key_id : String
  pub wrap_key : (random dek : Bytes) → Bytes
  pub unwrap_key : Bytes → Result Bytes

-- LocalKEK, with its nonce put before the wrapped key
unfoldable pub local_kek : AesGcm → String → Bytes → KeyEncryptionKey
local_kek aes key_id master_key = record {
  key_id = key_id;
  wrap_key = λ random dek. random ++ aes.encrypt master_key random dek none;
  unwrap_key = λ wrapped. aes.decrypt master_key (take 12 wrapped) (drop 12 wrapped) none;
}

-- EnvelopeEncryption.encrypt, with the key, the nonce and the bytes for the wrap that it draws
unfoldable pub encrypt :
    AesGcm → KeyEncryptionKey → (dek nonce random : Bytes) → Bytes → Option Bytes → EncryptedData
encrypt aes kek dek nonce random plaintext associated_data = record {
  ciphertext = aes.encrypt dek nonce plaintext associated_data;
  wrapped_dek = kek.wrap_key random dek;
  nonce = nonce;
  kek_id = kek.key_id;
  algorithm = "AES256-GCM";
}

-- EnvelopeEncryption.decrypt
unfoldable pub decrypt : AesGcm → KeyEncryptionKey → EncryptedData → Option Bytes → Result Bytes
decrypt aes kek encrypted associated_data = do
  dek ← kek.unwrap_key encrypted.wrapped_dek
  aes.decrypt dek encrypted.nonce encrypted.ciphertext associated_data

-- A value that the code takes for a text; a missing key raises.
unfoldable pub required_text : Json → Result String
required_text (str s) = ok s
required_text _ = raise (type_error "expected a text")

abbrev pub text_at : String → Fields → Result String
text_at key fs = required_text (get key fs)

-- The stored form: `base64` and JSON of the standard library.
module _ (b64encode : Bytes → String) (b64decode : String → Result Bytes) (dumps : Json → String)
    (loads : String → Option Json) where
  unfoldable pub document_of : EncryptedData → Fields
  document_of encrypted = field "ciphertext" (str (b64encode encrypted.ciphertext)) (
      field "wrapped_dek" (str (b64encode encrypted.wrapped_dek)) (
        field "nonce" (str (b64encode encrypted.nonce)) (
          field "kek_id" (str encrypted.kek_id) (field "algorithm" (str encrypted.algorithm) end))))

  -- serialize_encrypted
  unfoldable pub serialize_encrypted : EncryptedData → String
  serialize_encrypted encrypted = dumps (obj (document_of encrypted))

  unfoldable pub encrypted_of : Fields → Result EncryptedData
  unfolding required_text
  encrypted_of fs = do
    ciphertext ← text_at "ciphertext" fs >>= b64decode
    wrapped_dek ← text_at "wrapped_dek" fs >>= b64decode
    nonce ← text_at "nonce" fs >>= b64decode
    kek_id ← text_at "kek_id" fs
    algorithm ← (if has_key "algorithm" fs then text_at "algorithm" fs else ok "AES256-GCM")
    ok (record {
      ciphertext = ciphertext;
      wrapped_dek = wrapped_dek;
      nonce = nonce;
      kek_id = kek_id;
      algorithm = algorithm;
    })

  unfoldable pub of_document : Option Json → Result EncryptedData
  unfolding encrypted_of
  of_document (some (obj fs)) = encrypted_of fs
  of_document none = raise (value_error "Expecting value")
  of_document (some _) = raise (type_error "indices must be integers")

  -- deserialize_encrypted
  unfoldable pub deserialize_encrypted : String → Result EncryptedData
  unfolding of_document
  deserialize_encrypted text = of_document (loads text)

-- What `get_kek_from_environment` reads, and the kind of key that it chooses.
pub record KekSettings : Type 0 where
  pub kek_type : Option String
  pub aws_kms_key_id : Option String
  pub aws_kms_region : Option String
  pub gcp_kms_key_id : Option String
  pub vault_key_name : Option String
  pub vault_addr : Option String
  pub vault_token : Option String

pub data Kek : Type 0 where
  aws : (key_id : String) → (region : Option String) → Kek
  gcp : (key_id : String) → Kek
  vault : (key_name vault_addr token : String) → Kek
  local : Kek

abbrev given : Option String → String
given none = ""
given (some s) = s

abbrev kek_type_of : Option String → String
kek_type_of none = "local"
kek_type_of (some s) = lower s

-- get_kek_from_environment
unfoldable pub get_kek_from_environment : KekSettings → Result Kek
get_kek_from_environment e =
    let kek_type = kek_type_of e.kek_type in
    if kek_type == "aws"
    then if is_set (given e.aws_kms_key_id)
      then ok (aws (given e.aws_kms_key_id) e.aws_kms_region)
      else raise (runtime_error "ENCRYPTION_AWS_KMS_KEY_ID required for AWS KMS")
    else if kek_type == "gcp"
    then if is_set (given e.gcp_kms_key_id)
      then ok (gcp (given e.gcp_kms_key_id))
      else raise (runtime_error "ENCRYPTION_GCP_KMS_KEY_ID required for GCP KMS")
    else if kek_type == "vault"
    then if is_set (given e.vault_key_name)
        && is_set (given e.vault_addr)
        && is_set (given e.vault_token)
      then ok (vault (given e.vault_key_name) (given e.vault_addr) (given e.vault_token))
      else raise (runtime_error "Vault config requires key_name, addr, and token")
    else ok local
