-- ===== src/Policy/Scopes.antt =====
-- The row scopes that `evaluate` of sql_query_api/services/policy_engine.py collects: which policy
-- decides the attribute of a column, and when a principal has the attributes. A later `update` of the
-- dictionary wins.
pub mod Deciding
use secure_db_access_gateway.Prelude.{
  String, Option, none, some, List, [], ◌∷◌, Bool, true, false, not, ◌&&◌, ◌≡◌, ◌≢◌, ◌↔◌, ◌⊎◌, elem,
  filter, arith, In, here, there, Bool-cases, inl, inr, Option-cases, eq_iff, eq_refl, refl, ap,
  sym, ◌∙◌, ◌==◌, subst,
}
use secure_db_access_gateway.Prelude.Member.{elem-In, In-elem}
use secure_db_access_gateway.Prelude.Dict.{lookup, insert, string_eq, lookup-insert}
use secure_db_access_gateway.Prelude.Json.{Json, null, bool, num, str, arr, obj}
use secure_db_access_gateway.Auth.{Principal}
use secure_db_access_gateway.Policy.{
  Policy, update, row_restrictions_from, attribute_absent, first_absent, own_members, is_none,
}

abbrev pub Pairs : Type 0
Pairs = List (String × String)

-- No pair has the key.
abbrev pub Free : String → Pairs → Type 0
Free c d = (a : String) → ¬ In (c, a) d

-- The last pair with the key `c` has the value `a`.
pub data LastIn (c a : String) : Pairs → Type 0 where
  last_here : {d : Pairs} → Free c d → LastIn c a ((c, a) ∷ d)
  last_later : {kv : String × String} {d : Pairs} → LastIn c a d → LastIn c a (kv ∷ d)

pub lookup-update-Free : (c : String) (e d : Pairs) → Free c e → lookup c (update d e) ≡ lookup c d
unfolding update
lookup-update-Free c [] d free = refl
lookup-update-Free c ((k, v) ∷ e) d free =
    let differs : k ≢ c = λ same. free v (here (ap (λ x. (x, v)) (sym same))) in
    lookup-update-Free c e (insert k v d) (λ a i. free a (there i))
    ∙ ground (arith, lookup-insert k c v d, eq_iff k c)

pub lookup-update_last :
    (c a : String) (e d : Pairs) → LastIn c a e → lookup c (update d e) ≡ some a
unfolding update
lookup-update_last c a [] d l = elim l [ ]
lookup-update_last c a ((k, v) ∷ e) d (last_here free) =
    lookup-update-Free c e (insert c a d) free ∙ ground (arith, lookup-insert c c a d, eq_refl c)
lookup-update_last c a ((k, v) ∷ e) d (last_later l) = lookup-update_last c a e (insert k v d) l

pub last_or_Free : (c : String) (e : Pairs) → ((a : String) × LastIn c a e) ⊎ Free c e
last_or_Free c [] = inr λ a i. elim i [ ]
last_or_Free c ((k, v) ∷ e) = elim (last_or_Free c e) [
  | inl (a, l) ↦ inl (a, last_later l)
  | inr free ↦ elim (Bool-cases (k == c)) [
    | inl same ↦
        let k_c : k ≡ c = (eq_iff k c).0 same in
        inl (v, subst (λ x. LastIn c v ((x, v) ∷ e)) (sym k_c) (last_here free))
    | inr other ↦ inr λ a i. elim i [
      | here e ↦ absurd (let k_c : k ≡ c = sym (ap (λ p. p.0) e) in ground (arith, eq_iff k c))
      | there j ↦ free a j
    ]
  ]
]

-- The keys of a dictionary are distinct.
pub data IsDistinct : Pairs → Type 0 where
  no_pair : IsDistinct []
  pair : {k v : String} {d : Pairs} → Free k d → IsDistinct d → IsDistinct ((k, v) ∷ d)

Free-insert : (c k v : String) (d : Pairs) → c ≢ k → Free c d → Free c (insert k v d)
unfolding insert
Free-insert c k v [] differs free a (here e) = differs (ap (λ p. p.0) e)
Free-insert c k v [] differs free a (there i) = elim i [ ]
Free-insert c k v ((j, w) ∷ d) differs free a i = elim (Bool-cases (j == k)) [
  | inl same ↦ elim (rw same at i) [
    | here e ↦ let c_k : c ≡ k = ap (λ p. p.0) e ∙ (eq_iff j k).0 same in differs c_k
    | there i2 ↦ free a (there i2)
  ]
  | inr other ↦ elim (rw other at i) [
    | here e ↦ free w (here (ap (λ p. (p.0, w)) e))
    | there i2 ↦ Free-insert c k v d differs (λ b i3. free b (there i3)) a i2
  ]
]

insert-IsDistinct : (k v : String) (d : Pairs) → IsDistinct d → IsDistinct (insert k v d)
unfolding insert
insert-IsDistinct k v [] no_pair = pair (λ a i. elim i [ ]) no_pair
insert-IsDistinct k v ((j, w) ∷ d) (pair free rest) = elim (Bool-cases (j == k)) [
  | inl same ↦ rw same (pair free rest)
  | inr other ↦
      let differs : j ≢ k = λ e. ground (arith, eq_iff j k) in
      rw other (pair (Free-insert j k v d differs free) (insert-IsDistinct k v d rest))
]

update-IsDistinct : (e d : Pairs) → IsDistinct d → IsDistinct (update d e)
unfolding update
update-IsDistinct [] d h = h
update-IsDistinct ((k, v) ∷ e) d h = update-IsDistinct e (insert k v d) (insert-IsDistinct k v d h)

pub row_restrictions-IsDistinct :
    (ps : List Policy) (d : Pairs) → IsDistinct d → IsDistinct (row_restrictions_from d ps)
unfolding row_restrictions_from
row_restrictions-IsDistinct [] d h = h
row_restrictions-IsDistinct (p ∷ ps) d h =
    row_restrictions-IsDistinct ps (update d p.row_scope) (update-IsDistinct p.row_scope d h)

pub lookup-In : (c a : String) (d : Pairs) → lookup c d ≡ some a → In (c, a) d
unfolding lookup
lookup-In c a [] h = cc
lookup-In c a ((j, w) ∷ d) h = elim (Bool-cases (j == c)) [
  | inl same ↦
      let found : some w ≡ some a = rw same at h in
      let w_a : w ≡ a = cc in let j_c = (eq_iff j c).0 same in here (ground (arith, w_a, j_c))
  | inr other ↦ there (lookup-In c a d (rw other at h))
]

pub In-lookup : (c a : String) (d : Pairs) → IsDistinct d → In (c, a) d → lookup c d ≡ some a
unfolding lookup
In-lookup c a [] distinct i = elim i [ ]
In-lookup c a ((j, w) ∷ d) (pair free rest) (here e) =
    let j_c : j ≡ c = sym (ap (λ p. p.0) e) in
    let w_a : w ≡ a = sym (ap (λ p. p.1) e) in ground (arith, eq_iff j c)
In-lookup c a ((j, w) ∷ d) (pair free rest) (there i) =
    let differs : j ≢ c = λ e. free a (subst (λ x. In (x, a) d) (sym e) i) in
    ground (arith, eq_iff j c, In-lookup c a d rest i)

-- The principal has the attribute: the mapping has a value for it, other than null unless the name is
-- one of the principal's own members, which `getattr` finds first.
abbrev pub Has : Principal → String → Type 0
Has who a = (v : Json) × (lookup a who.attributes ≡ some v) × (In a own_members ⊎ (v ≢ null))

is_none_iff : (v : Json) → (is_none v ≡ false) ↔ (v ≢ null)
is_none_iff null = (λ h. absurd cc, λ n. absurd (n refl))
is_none_iff (bool b) = (λ h e. cc, λ n. refl)
is_none_iff (num k) = (λ h e. cc, λ n. refl)
is_none_iff (str s) = (λ h e. cc, λ n. refl)
is_none_iff (arr vs) = (λ h e. cc, λ n. refl)
is_none_iff (obj fs) = (λ h e. cc, λ n. refl)

Has-of : (who : Principal) (a : String) → attribute_absent who a ≡ false → Has who a
unfolding attribute_absent
Has-of who a h = elim (Option-cases (lookup a who.attributes)) [
  | inl missing ↦ absurd (ground (arith, missing))
  | inr (v, found) ↦ elim (Bool-cases (elem a own_members)) [
    | inl own ↦ (v, found, inl (elem-In a own_members own))
    | inr other ↦ (v, found, inr ((is_none_iff v).0 (ground (arith, found, other))))
  ]
]

not_absent : (who : Principal) (a : String) → Has who a → attribute_absent who a ≡ false
unfolding attribute_absent
not_absent who a (v, found, inl own) =
    let is_own = In-elem a own_members own in ground (arith, found, is_own)
not_absent who a (v, found, inr given) =
    let value = (is_none_iff v).1 given in ground (arith, found, value)

pub first_absent-Has :
    (who : Principal) (d : Pairs) (c a : String)
    → first_absent who d ≡ none
    → In (c, a) d
    → Has who a
unfolding first_absent
first_absent-Has who [] c a h i = elim i [ ]
first_absent-Has who ((k, v) ∷ d) c a h (here e) =
    let same : a ≡ v = ap (λ p. p.1) e in subst (Has who) (sym same) (Has-of who v (ground arith))
first_absent-Has who ((k, v) ∷ d) c a h (there i) = first_absent-Has who d c a (ground arith) i

pub Has-first_absent :
    (who : Principal) (d : Pairs)
    → ((c a : String) → In (c, a) d → Has who a)
    → first_absent who d ≡ none
unfolding first_absent
Has-first_absent who [] h = refl
Has-first_absent who ((k, v) ∷ d) h =
    let present = not_absent who v (h k v (here refl)) in
    let rest = Has-first_absent who d λ c a i. h c a (there i) in ground arith
