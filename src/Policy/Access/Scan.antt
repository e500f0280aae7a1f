-- ===== src/Policy/Access/Scan.antt =====
-- What the loop of `effective_access` has collected when it ends, in sql_query_api's policy engine.
use secure_db_access_gateway.Prelude.{
  String, none, some, List, [], ◌∷◌, ◌++◌, Bool, true, false, not, ◌&&◌, ◌||◌, ◌==◌, ◌≡◌, any, elem,
  arith, eq_iff, Option-cases, inl, inr,
}
use secure_db_access_gateway.Prelude.Dict.{lookup, insert, string_eq}
use secure_db_access_gateway.Auth.{Principal}
use secure_db_access_gateway.Policy.{Policy, matches}
use secure_db_access_gateway.Policy.Access.{
  Scanned, append_under, scan_policy, scan, tables_of, or_blank,
}

-- the keys after an assignment
tables-insert :
    (u t : String) (v : List Policy) (d : List (String × List Policy))
    → elem u (tables_of (insert t v d)) ≡ ((t == u) || elem u (tables_of d))
unfolding insert elem
tables-insert u t v [] = ground arith
tables-insert u t v ((j, w) ∷ d) =
    ground (arith, eq_iff j t, eq_iff t u, eq_iff j u, tables-insert u t v d)

tables-append_under :
    (u t : String) (p : Policy) (d : List (String × List Policy))
    → elem u (tables_of (append_under t p d)) ≡ ((t == u) || elem u (tables_of d))
unfolding append_under
tables-append_under u t p d = elim (Option-cases (lookup t d)) [
  | inl e ↦ rw (append_under, e) (tables-insert u t (p ∷ []) d)
  | inr (ps, e) ↦ rw (append_under, e) (tables-insert u t (ps ++ p ∷ []) d)
]

module _ (who : Principal) (db : String) where
  -- a deny policy that names no table
  abbrev pub denies_all : Policy → Bool
  denies_all p =
      matches p who db (or_blank p.table)
      && p.effect == "deny"
      && (elim p.table [ none ↦ true | some t ↦ false ])

  -- a policy on the table `u`, by its effect
  abbrev pub denies_table : String → Policy → Bool
  denies_table u p =
      matches p who db (or_blank p.table)
      && p.effect == "deny"
      && (elim p.table [ none ↦ false | some t ↦ t == u ])

  abbrev pub shows_table : String → Policy → Bool
  shows_table u p =
      matches p who db (or_blank p.table)
      && not (p.effect == "deny")
      && (elim p.table [ none ↦ false | some t ↦ t == u ])

  scan_policy-deny_all :
      (p : Policy) (s : Scanned) → (scan_policy who db p s).deny_all ≡ (s.deny_all || denies_all p)
  unfolding scan_policy
  scan_policy-deny_all p s = ground arith

  scan_policy-denied :
      (u : String) (p : Policy) (s : Scanned)
      → elem u (scan_policy who db p s).denied_tables ≡ (elem u s.denied_tables || denies_table u p)
  unfolding scan_policy elem
  scan_policy-denied u p s = ground arith

  scan_policy-shown :
      (u : String) (p : Policy) (s : Scanned)
      → elem u (tables_of (scan_policy who db p s).allow_by_table)
        ≡ (elem u (tables_of s.allow_by_table) || shows_table u p)
  unfolding scan_policy
  scan_policy-shown u p s = elim (Option-cases p.table) [
    | inl e ↦ rw e (ground arith)
    | inr (t, e) ↦ rw e (ground (arith, tables-append_under u t p s.allow_by_table))
  ]

  pub scan-deny_all :
      (ps : List Policy) (s : Scanned)
      → (scan who db ps s).deny_all ≡ (s.deny_all || any denies_all ps)
  unfolding scan
  scan-deny_all [] s = ground arith
  scan-deny_all (p ∷ ps) s =
      ground (arith, scan-deny_all ps (scan_policy who db p s), scan_policy-deny_all p s)

  pub scan-denied :
      (u : String) (ps : List Policy) (s : Scanned)
      → elem u (scan who db ps s).denied_tables
        ≡ (elem u s.denied_tables || any (denies_table u) ps)
  unfolding scan
  scan-denied u [] s = ground arith
  scan-denied u (p ∷ ps) s =
      ground (arith, scan-denied u ps (scan_policy who db p s), scan_policy-denied u p s)

  pub scan-shown :
      (u : String) (ps : List Policy) (s : Scanned)
      → elem u (tables_of (scan who db ps s).allow_by_table)
        ≡ (elem u (tables_of s.allow_by_table) || any (shows_table u) ps)
  unfolding scan
  scan-shown u [] s = ground arith
  scan-shown u (p ∷ ps) s =
      ground (arith, scan-shown u ps (scan_policy who db p s), scan_policy-shown u p s)
