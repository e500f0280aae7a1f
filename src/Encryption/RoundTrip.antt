-- ===== src/Encryption/RoundTrip.antt =====
-- What sql_query_api/services/encryption.py encrypts and stores can be read again.
use secure_db_access_gateway.Prelude.{
  ℕ, zero, suc, String, Option, none, some, [], ◌∷◌, ◌++◌, length, Result, ok, ◌>>=◌, ◌≡◌, arith,
  refl, ap,
}
use secure_db_access_gateway.Prelude.Json.{Json, obj, get, has_key}
use secure_db_access_gateway.Repository.Fetch.{take, drop}
use secure_db_access_gateway.Encryption.{
  Bytes, AesGcm, EncryptedData, local_kek, encrypt, decrypt, document_of, serialize_encrypted,
  encrypted_of, required_text, of_document, deserialize_encrypted,
}

take-append : (n : ℕ) (xs ys : Bytes) → length xs ≡ n → take n (xs ++ ys) ≡ xs
unfolding take
take-append zero [] ys h = refl
take-append (suc n) [] ys h = absurd (omega arith)
take-append zero (x ∷ xs) ys h = absurd (omega arith)
take-append (suc n) (x ∷ xs) ys h = ap (λ l. x ∷ l) (take-append n xs ys (omega arith))

drop-append : (n : ℕ) (xs ys : Bytes) → length xs ≡ n → drop n (xs ++ ys) ≡ ys
unfolding drop
drop-append zero [] ys h = refl
drop-append (suc n) [] ys h = absurd (omega arith)
drop-append zero (x ∷ xs) ys h = absurd (omega arith)
drop-append (suc n) (x ∷ xs) ys h = drop-append n xs ys (omega arith)

unwrap-wrap :
    (aes : AesGcm) (key_id : String) (master_key random dek : Bytes)
    → length random ≡ 12
    → (local_kek aes key_id master_key).unwrap_key
        ((local_kek aes key_id master_key).wrap_key random dek)
      ≡ ok dek
unfolding local_kek
unwrap-wrap aes key_id master_key random dek h =
    let wrapped = aes.encrypt master_key random dek none in
    rw (take-append 12 random wrapped h, drop-append 12 random wrapped h)
      (aes.decrypt-encrypt master_key random dek none)

decrypt-encrypt_local :
    (aes : AesGcm) (key_id : String) (master_key dek nonce random plaintext : Bytes)
    (associated_data : Option Bytes)
    → length random ≡ 12
    → decrypt aes
        (local_kek aes key_id master_key)
        (encrypt aes (local_kek aes key_id master_key) dek nonce random plaintext associated_data)
        associated_data
      ≡ ok plaintext
unfolding decrypt encrypt
decrypt-encrypt_local aes key_id master_key dek nonce random plaintext associated_data h =
    rw (unwrap-wrap aes key_id master_key random dek h)
      (aes.decrypt-encrypt dek nonce plaintext associated_data)

module _ (b64encode : Bytes → String) (b64decode : String → Result Bytes) (dumps : Json → String)
    (loads : String → Option Json) where
  -- The decoders undo the encoders on what is stored.
  abbrev pub Decodes : EncryptedData → Type 0
  Decodes e =
      (loads (dumps (obj (document_of b64encode b64decode dumps loads e)))
        ≡ some (obj (document_of b64encode b64decode dumps loads e)))
      × (b64decode (b64encode e.ciphertext) ≡ ok e.ciphertext)
      × (b64decode (b64encode e.wrapped_dek) ≡ ok e.wrapped_dek)
      × (b64decode (b64encode e.nonce) ≡ ok e.nonce)

  deserialize-serialize :
      (e : EncryptedData)
      → Decodes e
      → deserialize_encrypted b64encode b64decode dumps loads
          (serialize_encrypted b64encode b64decode dumps loads e)
        ≡ ok e
  unfolding deserialize_encrypted of_document serialize_encrypted required_text document_of
      encrypted_of get has_key
  deserialize-serialize e (document, ciphertext, wrapped, nonce) =
      rw (document, ciphertext, wrapped, nonce) refl

  -- What is encrypted under a local key, stored and read back is decrypted, under the same master
  -- key and with the same associated data, to the plaintext, if the wrap drew a nonce of 12 bytes and
  -- the decoders of base64 and JSON undo the encoders on what is stored.
  pub decrypt-deserialize-serialize-encrypt :
      (aes : AesGcm) (key_id : String) (master_key dek nonce random plaintext : Bytes)
      (associated_data : Option Bytes)
      → length random ≡ 12
      → Decodes
          (encrypt aes (local_kek aes key_id master_key) dek nonce random plaintext associated_data)
      → (deserialize_encrypted b64encode b64decode dumps loads (
            serialize_encrypted b64encode b64decode dumps loads (
              encrypt aes
                (local_kek aes key_id master_key)
                dek
                nonce
                random
                plaintext
                associated_data))
          >>= λ stored. decrypt aes (local_kek aes key_id master_key) stored associated_data)
        ≡ ok plaintext
  decrypt-deserialize-serialize-encrypt aes key_id master_key dek nonce random plaintext
        associated_data h decodes =
      rw
        (deserialize-serialize
          (encrypt aes (local_kek aes key_id master_key) dek nonce random plaintext associated_data)
          decodes)
        (decrypt-encrypt_local aes key_id master_key dek nonce random plaintext associated_data h)
