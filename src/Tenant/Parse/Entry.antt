-- ===== src/Tenant/Parse/Entry.antt =====
-- The entries that the first loop of `_parse_bindings` of
-- sql_query_api/services/tenant_database_resolver.py makes of a nested configuration: under which keys
-- each stands, and what it has of the value there.
use secure_db_access_gateway.Prelude.{
  String, List, [], ◌∷◌, false, ◌==◌, if◌then◌else◌, Result, ok, raise, ◌≢◌, ◌>>◌, >>=-eq-ok, ◌≡◌,
  ◌⊎◌, inl, inr, arith, refl, ap, sym, ◌∙◌, In, here, there, eq_iff, subst,
}
use secure_db_access_gateway.Prelude.Member.{In-append}
use secure_db_access_gateway.Prelude.Json.{
  Json, null, bool, num, str, arr, obj, Fields, end, field, fields, get,
}
use secure_db_access_gateway.Tenant.Parse.{
  put, require_object, with_mode, entry_of, database_entries, nested_entries, is_single, entries_of,
}

-- Reading after a write.
get-put :
    (j k : String) (v : Json) (fs : Fields) → get j (put k v fs) ≡ (if k == j then v else get j fs)
unfolding get put
get-put j k v end = ground arith
get-put j k v (field i w fs) = ground (arith, get-put j k v fs, eq_iff i k, eq_iff i j, eq_iff k j)

pub ok-eq-ok {ℓ} : {A : Type ℓ} {a b : A} → ok a ≡ ok b → a ≡ b
ok-eq-ok h = cc

-- Nothing stands in the empty list that a loop over nothing gives.
pub In-ok-nil {ℓ κ} : {A : Type ℓ} {P : Type κ} {a : A} {xs : List A} → ok [] ≡ ok xs → In a xs → P
In-ok-nil {a = a} h i = let none_in = subst (λ l. In a l) (sym (ok-eq-ok h)) i in elim none_in [ ]

pub >>-eq-ok {ℓ} :
    {B : Type ℓ} (first : Result (Unit {0})) (rest : Result B) {value : B}
    → (first >> rest) ≡ ok value
    → (u : Unit {0}) × (first ≡ ok u) × (rest ≡ ok value)
>>-eq-ok (raise e) rest h = cc
>>-eq-ok (ok u) rest h = (u, refl, h)

pub In-cons {ℓ} : {A : Type ℓ} {a x : A} {xs : List A} → In a (x ∷ xs) → (a ≡ x) ⊎ In a xs
In-cons (here e) = inl e
In-cons (there i) = inr i

-- An entry says that it belongs to `org_id` and `database_id`.
abbrev pub Names : String → String → Fields → Type 0
Names org_id database_id entry =
    (get "org_id" entry ≡ str org_id) × (get "database_id" entry ≡ str database_id)

with_mode-Names :
    (org_id database_id : String) (entry : Fields)
    → Names org_id database_id entry
    → Names org_id database_id (with_mode entry)
unfolding with_mode
with_mode-Names org_id database_id entry (o, d) = ground (
  arith,
  get-put "org_id" "credential_mode" (str "static") entry,
  get-put "org_id" "credential_mode" (str "rotated") entry,
  get-put "database_id" "credential_mode" (str "static") entry,
  get-put "database_id" "credential_mode" (str "rotated") entry,
)

entry_of-Names :
    (org_id database_id : String) (v : Json) (entry : Fields)
    → entry_of org_id database_id v ≡ ok entry
    → Names org_id database_id entry
unfolding entry_of get
entry_of-Names org_id database_id (str s) entry h =
    subst (Names org_id database_id) (ok-eq-ok h) (refl, refl)
entry_of-Names org_id database_id (obj fs) entry h =
    let owned = put "org_id" (str org_id) fs in
    subst (Names org_id database_id) (ok-eq-ok h) (
      with_mode-Names org_id database_id (put "database_id" (str database_id) owned) (
        ground (
          arith,
          get-put "org_id" "database_id" (str database_id) owned,
          get-put "org_id" "org_id" (str org_id) fs,
        ),
        ground (arith, get-put "database_id" "database_id" (str database_id) owned),
      ))
entry_of-Names org_id database_id null entry h = cc
entry_of-Names org_id database_id (bool b) entry h = cc
entry_of-Names org_id database_id (num n) entry h = cc
entry_of-Names org_id database_id (arr vs) entry h = cc

-- The entry has what the value under its key says: a text is the connection string, an object gives
-- every field but the identifiers and the mode.
abbrev pub Content : Json → Fields → Type 0
Content (str s) entry = get "connection_string" entry ≡ str s
Content (obj fs) entry =
    (k : String) → k ≢ "org_id" → k ≢ "database_id" → k ≢ "credential_mode" → get k entry ≡ get k fs
Content _ entry = ⊥

get-with_mode : (k : String) (fs : Fields) → k ≢ "credential_mode" → get k (with_mode fs) ≡ get k fs
unfolding with_mode
get-with_mode k fs n = ground (
  arith,
  get-put k "credential_mode" (str "static") fs,
  get-put k "credential_mode" (str "rotated") fs,
  eq_iff "credential_mode" k,
)

entry_of-Content :
    (org_id database_id : String) (v : Json) (entry : Fields)
    → entry_of org_id database_id v ≡ ok entry
    → Content v entry
unfolding entry_of get
entry_of-Content org_id database_id (str s) entry h =
    subst (λ e. get "connection_string" e ≡ str s) (ok-eq-ok h) refl
entry_of-Content org_id database_id (obj fs) entry h = λ k o d m.
    let owned = put "org_id" (str org_id) fs in
    let named = put "database_id" (str database_id) owned in
    subst (λ e. get k e ≡ get k fs) (ok-eq-ok h)
      (get-with_mode k named m
        ∙ ground (
          arith,
          get-put k "database_id" (str database_id) owned,
          get-put k "org_id" (str org_id) fs,
          eq_iff "database_id" k,
          eq_iff "org_id" k,
        ))
entry_of-Content org_id database_id null entry h = cc
entry_of-Content org_id database_id (bool b) entry h = cc
entry_of-Content org_id database_id (num n) entry h = cc
entry_of-Content org_id database_id (arr vs) entry h = cc

-- Every entry names the key of the object that it stands under, and has the content of its value.
abbrev pub Within : Fields → Fields → Type 0
Within fs entry =
    (org_id : String) × (databases : Fields) × (database_id : String) × (v : Json) × In
      (org_id, obj databases) (fields fs)
    × In (database_id, v) (fields databases)
    × Content v entry
    × Names org_id database_id entry

database_entries-Names :
    (org_id : String) (fs : Fields) (entries : List Fields)
    → database_entries org_id fs ≡ ok entries
    → (entry : Fields) → In entry entries
    → (database_id : String) × (v : Json) × In (database_id, v) (fields fs)
      × Content v entry
      × Names org_id database_id entry
unfolding database_entries
database_entries-Names org_id end entries h entry i = In-ok-nil h i
database_entries-Names org_id (field k v rest) entries h entry i =
    let (e, he, h1) = >>=-eq-ok (entry_of org_id k v) _ h in
    let (more, hm, h2) = >>=-eq-ok (database_entries org_id rest) _ h1 in
    elim (In-cons (subst (λ l. In entry l) (sym (ok-eq-ok h2)) i)) [
      | inl same ↦ (
        k,
        v,
        here refl,
        subst (Content v) (sym same) (entry_of-Content org_id k v e he),
        subst (Names org_id k) (sym same) (entry_of-Names org_id k v e he),
      )
      | inr j ↦
          let (d, w, at, content, names) = database_entries-Names org_id rest more hm entry j in
          (d, w, there at, content, names)
    ]

require_object-eq-ok :
    (message : String) (v : Json) (fs : Fields) → require_object message v ≡ ok fs → v ≡ obj fs
unfolding require_object
require_object-eq-ok message (obj d) fs h = cc
require_object-eq-ok message null fs h = cc
require_object-eq-ok message (bool b) fs h = cc
require_object-eq-ok message (num n) fs h = cc
require_object-eq-ok message (str s) fs h = cc
require_object-eq-ok message (arr vs) fs h = cc

pub nested_entries-Within :
    (fs : Fields) (entries : List Fields)
    → nested_entries fs ≡ ok entries
    → (entry : Fields) → In entry entries
    → Within fs entry
unfolding nested_entries
nested_entries-Within end entries h entry i = In-ok-nil h i
nested_entries-Within (field k v rest) entries h entry i =
    let message : String = "Tenant database mappings must be nested objects." in
    let (databases, hd, h1) = >>=-eq-ok (require_object message v) _ h in
    let (own, ho, h2) = >>=-eq-ok (database_entries k databases) _ h1 in
    let (more, hm, h3) = >>=-eq-ok (nested_entries rest) _ h2 in
    elim (In-append own (subst (λ l. In entry l) (sym (ok-eq-ok h3)) i)) [
      | inl j ↦
          let (d, w, at, content, names) = database_entries-Names k databases own ho entry j in
          let v_databases = require_object-eq-ok message v databases hd in
          (k, databases, d, w, here (ap (λ x. (k, x)) (sym v_databases)), at, content, names)
      | inr j ↦
          let (org_id, inner, d, w, within, at, content, names) =
            nested_entries-Within rest more hm entry j in
          (org_id, inner, d, w, there within, at, content, names)
    ]

pub entries_of-obj : (fs : Fields) → is_single fs ≡ false → entries_of (obj fs) ≡ nested_entries fs
unfolding entries_of
entries_of-obj fs nested = rw nested refl
