-- ===== src/Tenant/Rotated/Cache.antt =====
-- Which file answers a tenant, and how long its answer is kept: the loader of
-- sql_query_api/config/rotated_creds.py.
use secure_db_access_gateway.Prelude.{
  String, Option, none, some, [], ◌≡◌, ◌∙◌, ap, ok, raise, Result, arith, refl, eq_refl, sym,
}
use secure_db_access_gateway.Prelude.Dict.{lookup, insert, string_eq, lookup-insert, lookup-remove}
use secure_db_access_gateway.Tenant.Rotated.{
  RotatedCredentials, Volume, Cache, cache_key, read_file, load_file, found, store_loaded,
  use_cached, get_credentials, invalidate_cache,
}

store_loaded-shared :
    (tenant_id role_name other_id other_role : String) (cache : Cache) (creds : RotatedCredentials)
    (r : Result (Option RotatedCredentials))
    → cache_key tenant_id role_name ≡ cache_key other_id other_role
    → (store_loaded tenant_id role_name cache r).0 ≡ ok creds
    → store_loaded other_id other_role cache r ≡ store_loaded tenant_id role_name cache r
unfolding store_loaded found
store_loaded-shared tenant_id role_name other_id other_role cache creds (raise e) same h = refl
store_loaded-shared tenant_id role_name other_id other_role cache creds (ok none) same h = cc
store_loaded-shared tenant_id role_name other_id other_role cache creds (ok (some c)) same h =
    ap (λ k. (ok c, insert k c cache)) (sym same)

use_cached-shared :
    (volume : Volume) (tenant_id role_name other_id other_role : String) (cache : Cache)
    (creds : RotatedCredentials) (o : Option RotatedCredentials)
    → cache_key tenant_id role_name ≡ cache_key other_id other_role
    → (use_cached volume tenant_id role_name cache o).0 ≡ ok creds
    → use_cached volume other_id other_role cache o ≡ use_cached volume tenant_id role_name cache o
unfolding use_cached
use_cached-shared volume tenant_id role_name other_id other_role cache creds none same h =
    let same_load : load_file volume other_id other_role ≡ load_file volume tenant_id role_name =
      unfold load_file in ap (λ k. read_file (volume k)) (sym same) in
    rw same_load (
      store_loaded-shared tenant_id role_name other_id other_role cache creds
        (load_file volume tenant_id role_name) same h)
use_cached-shared volume tenant_id role_name other_id other_role cache creds (some c) same h = refl

store_loaded-kept :
    (tenant_id role_name : String) (cache : Cache) (creds : RotatedCredentials)
    (r : Result (Option RotatedCredentials))
    → (store_loaded tenant_id role_name cache r).0 ≡ ok creds
    → lookup (cache_key tenant_id role_name) (store_loaded tenant_id role_name cache r).1
      ≡ some creds
unfolding store_loaded found
store_loaded-kept tenant_id role_name cache creds (raise e) h = cc
store_loaded-kept tenant_id role_name cache creds (ok none) h = cc
store_loaded-kept tenant_id role_name cache creds (ok (some c)) h =
    let k = cache_key tenant_id role_name in ground (arith, lookup-insert k k c cache, eq_refl k)

use_cached-kept :
    (volume : Volume) (tenant_id role_name : String) (cache : Cache) (creds : RotatedCredentials)
    (o : Option RotatedCredentials)
    → lookup (cache_key tenant_id role_name) cache ≡ o
    → (use_cached volume tenant_id role_name cache o).0 ≡ ok creds
    → lookup (cache_key tenant_id role_name) (use_cached volume tenant_id role_name cache o).1
      ≡ some creds
unfolding use_cached
use_cached-kept volume tenant_id role_name cache creds none e h =
    store_loaded-kept tenant_id role_name cache creds (load_file volume tenant_id role_name) h
use_cached-kept volume tenant_id role_name cache creds (some c) e h = cc

store_loaded-value :
    (tenant_id role_name : String) (cache other : Cache) (r : Result (Option RotatedCredentials))
    → (store_loaded tenant_id role_name cache r).0 ≡ (store_loaded tenant_id role_name other r).0
unfolding store_loaded found
store_loaded-value tenant_id role_name cache other (raise e) = refl
store_loaded-value tenant_id role_name cache other (ok none) = refl
store_loaded-value tenant_id role_name cache other (ok (some c)) = refl

get_credentials-absent :
    (volume : Volume) (tenant_id role_name : String) (cache : Cache)
    → lookup (cache_key tenant_id role_name) cache ≡ none
    → (get_credentials volume tenant_id role_name cache).0
      ≡ (get_credentials volume tenant_id role_name []).0
unfolding get_credentials use_cached lookup
get_credentials-absent volume tenant_id role_name cache e =
    rw e (store_loaded-value tenant_id role_name cache [] (load_file volume tenant_id role_name))

-- Two pairs of a tenant and a role that are joined by an underscore to one name are given the same
-- credentials: `org` with the role `a_read` is given those of `org_a` with the role `read`.
pub get_credentials-shared :
    (volume : Volume) (tenant_id role_name other_id other_role : String) (cache : Cache)
    (creds : RotatedCredentials)
    → cache_key tenant_id role_name ≡ cache_key other_id other_role
    → (get_credentials volume tenant_id role_name cache).0 ≡ ok creds
    → get_credentials volume other_id other_role cache
      ≡ get_credentials volume tenant_id role_name cache
unfolding get_credentials
get_credentials-shared volume tenant_id role_name other_id other_role cache creds same h =
    let k = cache_key tenant_id role_name in
    let p =
      use_cached-shared volume tenant_id role_name other_id other_role cache creds (lookup k cache)
        same h in
    ap (λ j. use_cached volume other_id other_role cache (lookup j cache)) (sym same) ∙ p

-- Credentials once given are given again whatever the volume holds by then; after the entry is
-- invalidated, a call answers from the volume.
pub get_credentials-cached :
    (before after : Volume) (tenant_id role_name : String) (cache : Cache)
    (creds : RotatedCredentials)
    → (get_credentials before tenant_id role_name cache).0 ≡ ok creds
    → ((get_credentials after tenant_id role_name
          (get_credentials before tenant_id role_name cache).1).0
        ≡ ok creds)
      × ((get_credentials after tenant_id role_name (
            invalidate_cache tenant_id role_name
              (get_credentials before tenant_id role_name cache).1)).0
          ≡ (get_credentials after tenant_id role_name []).0)
get_credentials-cached before after tenant_id role_name cache creds h =
    let k = cache_key tenant_id role_name in
    let c = (get_credentials before tenant_id role_name cache).1 in
    let kept : lookup k c ≡ some creds =
      unfold get_credentials in
      use_cached-kept before tenant_id role_name cache creds (lookup k cache) refl h in
    let gone : lookup k (invalidate_cache tenant_id role_name c) ≡ none =
      unfold invalidate_cache in ground (arith, lookup-remove k k c, eq_refl k) in
    (
      unfold get_credentials use_cached in rw kept refl,
      get_credentials-absent after tenant_id role_name (invalidate_cache tenant_id role_name c)
          gone,
    )
