-- ===== src/Prelude/Member.antt =====
-- The Boolean searches of Prelude/Lists against membership.
use mathlib.Core.Path.{◌≡◌, refl, ap, sym, ◌∙◌}
use mathlib.Core.Logic.{◌⊎◌, inl, inr}
use mathlib.Core.Bool.{Bool, true, false, ◌&&◌}
use mathlib.Core.List.{List, [], ◌∷◌, ◌++◌}
use native.Mathlib.Omega.{arith}
use Prim.Native.String.{String}
use text.Mathlib.Text.{◌==◌}
use text.Mathlib.TextEquality.{eq_iff}
use secure_db_access_gateway.Prelude.Tests.{if◌then◌else◌, Bool-cases, or_cases}
use secure_db_access_gateway.Prelude.Lists.{In, here, there, any, filter, is_empty, elem}

module _ {ℓ} {A : Type ℓ} where
  pub not-In-nil : {a : A} → In a [] → ⊥
  not-In-nil h = elim h [ ]

  pub is_empty-eq-false : (xs : List A) → is_empty xs ≡ false → (x : A) × In x xs
  is_empty-eq-false [] h = cc
  is_empty-eq-false (x ∷ xs) h = (x, here refl)

  pub is_empty_of_In : {a : A} {xs : List A} → In a xs → is_empty xs ≡ false
  is_empty_of_In (here e) = refl
  is_empty_of_In (there h) = refl

  pub In-append_left : {a : A} {xs : List A} (ys : List A) → In a xs → In a (xs ++ ys)
  In-append_left ys (here e) = here e
  In-append_left ys (there h) = there (In-append_left ys h)

  pub In-append_right : {a : A} (xs : List A) {ys : List A} → In a ys → In a (xs ++ ys)
  In-append_right [] h = h
  In-append_right (x ∷ xs) h = there (In-append_right xs h)

  pub In-append : {a : A} (xs : List A) {ys : List A} → In a (xs ++ ys) → In a xs ⊎ In a ys
  In-append [] h = inr h
  In-append (x ∷ xs) (here e) = inl (here e)
  In-append (x ∷ xs) (there h) = elim (In-append xs h) [ inl i ↦ inl (there i) | inr j ↦ inr j ]

module _ {ℓ} {A : Type ℓ} (p : A → Bool) where
  pub any-eq-true : (xs : List A) → any p xs ≡ true → (x : A) × In x xs × (p x ≡ true)
  any-eq-true [] h = cc
  any-eq-true (x ∷ xs) h = elim (Bool-cases (p x)) [
    | inl e ↦ (x, here refl, e)
    | inr e ↦ let (y, i, q) = any-eq-true xs (ground arith) in (y, there i, q)
  ]

  pub any_of_In : {a : A} (xs : List A) → In a xs → p a ≡ true → any p xs ≡ true
  any_of_In [] h q = elim h [ ]
  any_of_In (x ∷ xs) (here e) q = ground (arith, ap p e)
  any_of_In (x ∷ xs) (there h) q = ground (arith, any_of_In xs h q)

  pub any-eq-false : {a : A} (xs : List A) → any p xs ≡ false → In a xs → p a ≡ false
  any-eq-false {a} xs h i = elim (Bool-cases (p a)) [
    | inl e ↦ ground (arith, any_of_In xs i e)
    | inr e ↦ e
  ]

  pub any-false : (xs : List A) → ((x : A) → In x xs → p x ≡ false) → any p xs ≡ false
  any-false xs h = elim (Bool-cases (any p xs)) [
    | inl e ↦ let (y, i, q) = any-eq-true xs e in ground (arith, h y i)
    | inr e ↦ e
  ]

  pub In-filter : {a : A} (xs : List A) → In a xs → p a ≡ true → In a (filter p xs)
  In-filter [] h q = elim h [ ]
  In-filter (x ∷ xs) (here e) q = rw (sym (ap p e) ∙ q) (here e)
  In-filter (x ∷ xs) (there h) q = elim (Bool-cases (p x)) [
    | inl e ↦ rw e (there (In-filter xs h q))
    | inr e ↦ rw e (In-filter xs h q)
  ]

  picked :
      {a x : A} {r : List A} (b : Bool)
      → In a (if b then x ∷ r else r)
      → ((a ≡ x) × (b ≡ true)) ⊎ In a r
  picked true (here e) = inl (e, refl)
  picked true (there h) = inr h
  picked false h = inr h

  pub filter-In : {a : A} (xs : List A) → In a (filter p xs) → In a xs × (p a ≡ true)
  filter-In [] h = elim h [ ]
  filter-In {a} (x ∷ xs) h = elim (picked (p x) h) [
    | inl (e, q) ↦ (here e, ap p e ∙ q)
    | inr i ↦ let (j, q) = filter-In xs i in (there j, q)
  ]

pub elem-In : (t : String) (xs : List String) → elem t xs ≡ true → In t xs
unfolding elem
elem-In t [] h = cc
elem-In t (x ∷ xs) h = elim (or_cases (x == t) (elem t xs) h) [
  | inl e ↦ here (ground (arith, eq_iff x t))
  | inr e ↦ there (elem-In t xs e)
]

pub In-elem : (t : String) (xs : List String) → In t xs → elem t xs ≡ true
unfolding elem
In-elem t [] h = elim h [ ]
In-elem t (x ∷ xs) (here e) = ground (arith, eq_iff x t)
In-elem t (x ∷ xs) (there h) = ground (arith, In-elem t xs h)

pub elem-filter :
    (p : String → Bool) (u : String) (xs : List String) → elem u (filter p xs) ≡ (elem u xs && p u)
unfolding elem
elem-filter p u [] = refl
elem-filter p u (x ∷ xs) = elim (Bool-cases (x == u)) [
  | inl e ↦ ground (arith, ap p ((eq_iff x u).0 e), elem-filter p u xs)
  | inr e ↦ ground (arith, elem-filter p u xs)
]
