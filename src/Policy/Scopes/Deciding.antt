-- ===== src/Policy/Scopes/Deciding.antt =====
-- Which policy decides the row scope of a column, among those that a test keeps
-- (sql_query_api/services/policy_engine.py).
use secure_db_access_gateway.Prelude.{
  String, none, some, List, [], ◌∷◌, Bool, true, false, ◌&&◌, ◌≡◌, ◌↔◌, ◌⊎◌, filter, arith, In,
  here, there, Bool-cases, inl, inr, refl, ◌∙◌, subst, sym,
}
use secure_db_access_gateway.Prelude.Dict.{lookup, string_eq}
use secure_db_access_gateway.Auth.{Principal}
use secure_db_access_gateway.Policy.{Policy, row_restrictions_from, first_absent}
use secure_db_access_gateway.Policy.Scopes.{
  Pairs, Free, LastIn, lookup-update-Free, lookup-update_last, last_or_Free, no_pair,
  row_restrictions-IsDistinct, lookup-In, In-lookup, Has, first_absent-Has, Has-first_absent,
}

module _ (R : Policy → Type 0) where
  -- No policy of the list with the property scopes the column.
  abbrev pub Unscoped : String → List Policy → Type 0
  Unscoped c ps = (p : Policy) → In p ps → R p → Free c p.row_scope

  -- The last policy with the property that scopes the column `c` scopes it by the attribute `a`.
  pub data LastScopes (c a : String) : List Policy → Type 0 where
    scopes_here :
        {p : Policy} {ps : List Policy}
        → R p
        → LastIn c a p.row_scope
        → Unscoped c ps
        → LastScopes c a (p ∷ ps)
    scopes_later : {p : Policy} {ps : List Policy} → LastScopes c a ps → LastScopes c a (p ∷ ps)

  module _ (f g : Policy → Bool) where
    abbrev kept : List Policy → List Policy
    kept ps = filter f (filter g ps)

    keeps :
        (p : Policy) (ps : List Policy) → (g p ≡ true) × (f p ≡ true) → kept (p ∷ ps) ≡ p ∷ kept ps
    keeps p ps (h, k) = rw (h, k) refl

    drops : (p : Policy) (ps : List Policy) → (g p && f p) ≡ false → kept (p ∷ ps) ≡ kept ps
    drops p ps h = ground arith

    module _ (fits : (p : Policy) → R p → (g p ≡ true) × (f p ≡ true)) where
      lookup-row-Unscoped :
          (c : String) (ps : List Policy) (d : Pairs)
          → ((p : Policy) → In p ps → (g p ≡ true) → (f p ≡ true) → R p)
          → Unscoped c ps
          → lookup c (row_restrictions_from d (kept ps)) ≡ lookup c d
      unfolding row_restrictions_from
      lookup-row-Unscoped c [] d of unscoped = refl
      lookup-row-Unscoped c (p ∷ ps) d of unscoped = elim (Bool-cases (g p && f p)) [
        | inr dropped ↦
            rw (drops p ps dropped)
              (lookup-row-Unscoped c ps d (λ q i. of q (there i)) (λ q i. unscoped q (there i)))
        | inl both ↦
            let ge : g p ≡ true = ground arith in
            let fe : f p ≡ true = ground arith in
            let free = unscoped p (here refl) (of p (here refl) ge fe) in
            rw (keeps p ps (ge, fe)) (
              lookup-row-Unscoped c ps _ (λ q i. of q (there i)) (λ q i. unscoped q (there i))
              ∙ lookup-update-Free c p.row_scope d free)
      ]

      lookup-row_last :
          (c a : String) (ps : List Policy) (d : Pairs)
          → ((p : Policy) → In p ps → (g p ≡ true) → (f p ≡ true) → R p)
          → LastScopes c a ps
          → lookup c (row_restrictions_from d (kept ps)) ≡ some a
      unfolding row_restrictions_from
      lookup-row_last c a [] d of l = elim l [ ]
      lookup-row_last c a (p ∷ ps) d of (scopes_here r l unscoped) = rw (keeps p ps (fits p r)) (
          lookup-row-Unscoped c ps _ (λ q i. of q (there i)) unscoped
          ∙ lookup-update_last c a p.row_scope d l)
      lookup-row_last c a (p ∷ ps) d of (scopes_later l) = elim (Bool-cases (g p && f p)) [
        | inr dropped ↦ rw (drops p ps dropped) (lookup-row_last c a ps d (λ q i. of q (there i)) l)
        | inl both ↦
            rw (keeps p ps (ground arith, ground arith))
              (lookup-row_last c a ps _ (λ q i. of q (there i)) l)
      ]

      scoped_or_not :
          (c : String) (ps : List Policy)
          → ((p : Policy) → In p ps → (g p ≡ true) → (f p ≡ true) → R p)
          → ((a : String) × LastScopes c a ps) ⊎ Unscoped c ps
      scoped_or_not c [] of = inr λ p i. elim i [ ]
      scoped_or_not c (p ∷ ps) of = elim (scoped_or_not c ps (λ q i. of q (there i))) [
        | inl (a, l) ↦ inl (a, scopes_later l)
        | inr unscoped ↦ elim (last_or_Free c p.row_scope) [
          | inr free ↦ inr λ q i r. elim i [
            | here e ↦ subst (λ x. Free c x.row_scope) (sym e) free
            | there j ↦ unscoped q j r
          ]
          | inl (a, l) ↦ elim (Bool-cases (g p && f p)) [
            | inl both ↦
                inl (a, scopes_here (of p (here refl) (ground arith) (ground arith)) l unscoped)
            | inr dropped ↦ inr λ q i r. elim i [
              | here e ↦ let (h, k) = fits p (subst R e r) in absurd (ground arith)
              | there j ↦ unscoped q j r
            ]
          ]
        ]
      ]

      -- The attributes of the collected row scopes are all there exactly when each column's deciding
      -- attribute is.
      pub all_present :
          (who : Principal) (ps : List Policy)
          → ((p : Policy) → In p ps → (g p ≡ true) → (f p ≡ true) → R p)
          → (first_absent who (row_restrictions_from [] (kept ps)) ≡ none)
            ↔ ((c a : String) → LastScopes c a ps → Has who a)
      unfolding lookup
      all_present who ps of =
          let rows = row_restrictions_from [] (kept ps) in
          let distinct = row_restrictions-IsDistinct (kept ps) [] no_pair in
          (
            λ h c a l.
                first_absent-Has who rows c a h
                  (lookup-In c a rows (lookup-row_last c a ps [] of l)),
            λ h. Has-first_absent who rows λ c a i.
                let found = In-lookup c a rows distinct i in
                elim (scoped_or_not c ps of) [
                  | inr unscoped ↦
                      let missing = lookup-row-Unscoped c ps [] of unscoped in
                      absurd (cc (found, missing))
                  | inl (b, l) ↦
                      let last = lookup-row_last c b ps [] of l in
                      let same : b ≡ a = cc (found, last) in subst (Has who) same (h c b l)
                ],
          )
