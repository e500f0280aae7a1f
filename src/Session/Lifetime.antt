-- ===== src/Session/Lifetime.antt =====
-- How long a session of auth0_api/app/auth/session_store.py lasts.
use secure_db_access_gateway.Prelude.{
  ℕ, ◌+◌, ◌<◌, String, Option, none, some, Bool, true, ◌≡◌, ok, arith, refl, Bool-cases, inl, inr,
  eq_refl,
}
use secure_db_access_gateway.Prelude.Text.{is_set}
use secure_db_access_gateway.Prelude.Dict.{lookup, string_eq, lookup-insert, lookup-remove}
use secure_db_access_gateway.Prelude.Json.{Json, null, bool, num, str, arr, obj, Fields, get}
use secure_db_access_gateway.Session.{
  Redis, Payload, document, Store, redis_key, stamp, payload_of, create_session, decoded,
  from_redis, from_memory, get_session, revoke_session,
}

module _ {R : Type 0} (client : Redis R) (dumps : Json → String) (loads : String → Option Json)
    (connected : Bool) where
  -- A revoked session is gone at once, at every later time, in Redis and in memory alike.
  pub get_session-revoke_session :
      (session_id : Option String) (now : ℕ) (st : Store R)
      → (get_session client dumps loads connected session_id now
          (revoke_session client dumps loads connected session_id st)).0
        ≡ ok none
  unfolding get_session revoke_session from_redis from_memory
  get_session-revoke_session none now st = refl
  get_session-revoke_session (some session_id) now st = elim (Bool-cases connected) [
    | inl on ↦ ground (arith, client.read-delete (redis_key session_id) now st.redis)
    | inr off ↦ ground (arith, lookup-remove session_id session_id st.sessions, eq_refl session_id)
  ]

  decoded-fresh :
      (session_id : String) (now n : ℕ) (st : Store R) (o : Option Json) (data_ : Fields)
      → (decoded client dumps loads connected session_id now st o).0 ≡ ok (some data_)
      → stamp (get "expires_at" data_) ≡ some n
      → now < n
  unfolding decoded
  decoded-fresh session_id now n st none data_ h e = cc
  decoded-fresh session_id now n st (some (obj d)) data_ h e = ground arith
  decoded-fresh session_id now n st (some null) data_ h e = cc
  decoded-fresh session_id now n st (some (bool b)) data_ h e = cc
  decoded-fresh session_id now n st (some (num m)) data_ h e = cc
  decoded-fresh session_id now n st (some (str s)) data_ h e = cc
  decoded-fresh session_id now n st (some (arr vs)) data_ h e = cc

  from_redis-fresh :
      (session_id : String) (now n : ℕ) (st : Store R) (o : Option String) (data_ : Fields)
      → (from_redis client dumps loads connected session_id now st o).0 ≡ ok (some data_)
      → stamp (get "expires_at" data_) ≡ some n
      → now < n
  unfolding from_redis
  from_redis-fresh session_id now n st none data_ h e = cc
  from_redis-fresh session_id now n st (some raw) data_ h e =
      decoded-fresh session_id now n st (loads raw) data_ h e

  from_memory-fresh :
      (session_id : String) (now n : ℕ) (st : Store R) (o : Option Payload) (data_ : Fields)
      → (from_memory client dumps loads connected session_id now st o).0 ≡ ok (some data_)
      → stamp (get "expires_at" data_) ≡ some n
      → now < n
  unfolding from_memory stamp get
  from_memory-fresh session_id now n st none data_ h e = cc
  from_memory-fresh session_id now n st (some p) data_ h e = ground arith

  -- A session that is given has not expired: its `expires_at`, if that is an integer, is later than
  -- now.
  pub get_session-fresh :
      (session_id : Option String) (now n : ℕ) (st : Store R) (data_ : Fields)
      → (get_session client dumps loads connected session_id now st).0 ≡ ok (some data_)
      → stamp (get "expires_at" data_) ≡ some n
      → now < n
  unfolding get_session
  get_session-fresh none now n st data_ h e = cc
  get_session-fresh (some session_id) now n st data_ h e = ground (
    arith,
    from_redis-fresh session_id now n st (client.read (redis_key session_id) now st.redis) data_,
    from_memory-fresh session_id now n st (lookup session_id st.sessions) data_,
  )

  -- A session that was created can be read until it expires, with just the data it was created with,
  -- if its identifier is not empty and decoding undoes the encoding of that data.
  pub get_session-create_session :
      (session_id csrf_token : String) (user : Json) (access_token : String) (ttl now later : ℕ)
      (st : Store R)
      → loads (
          dumps (
            obj (
              document
                (payload_of client dumps loads connected user access_token csrf_token ttl now))))
        ≡ some (
            obj (
              document
                (payload_of client dumps loads connected user access_token csrf_token ttl now)))
      → is_set session_id ≡ true
      → later < now + ttl
      → (get_session client dumps loads connected (some session_id) later (
          create_session client dumps loads connected session_id csrf_token user access_token ttl
            now st)).0
        ≡ ok (
            some (
              document
                (payload_of client dumps loads connected user access_token csrf_token ttl now)))
  unfolding get_session create_session from_redis from_memory decoded stamp get
  get_session-create_session session_id csrf_token user access_token ttl now later st law set h =
      let p = payload_of client dumps loads connected user access_token csrf_token ttl now in
      elim (Bool-cases connected) [
        | inl on ↦ ground (
          arith,
          client.read-setex (redis_key session_id) (dumps (obj (document p))) ttl now later st.redis
              h,
          law,
        )
        | inr off ↦
            ground (arith, lookup-insert session_id session_id p st.sessions, eq_refl session_id)
      ]
