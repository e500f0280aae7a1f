-- ===== src/Secrets/Sources.antt =====
-- Which source of shared/shared_secrets/secrets.py a secret comes from.
use secure_db_access_gateway.Prelude.{
  String, Option, none, some, true, false, ok, >>=-eq-ok, sym, subst, ◌≡◌, ◌⊎◌, inl, inr,
  Bool-cases, arith, refl,
}
use secure_db_access_gateway.Prelude.Text.{strip, is_set, lstrip, rstrip}
use secure_db_access_gateway.Secrets.{
  Reading, content, missing, unreadable, or_default, source_file, read_file, read_as, fallback,
  from_file, read_secret,
}

module _ (env : String → Option String) (disk : String → Reading) (name : String) where
  -- A secret read from the file is what the file holds, trimmed and not empty.
  abbrev pub Held : Option String → String → Type 0
  Held none v = ⊥
  Held (some path) v = (s : String) × (disk path ≡ content s) × (v ≡ strip s)

  read_as-eq-ok :
      (path s : String) (r : Reading)
      → read_as env disk path name r ≡ ok s
      → (r ≡ content s) ⊎ (s ≡ "")
  unfolding read_as
  read_as-eq-ok path s (content t) h = inl (ground arith)
  read_as-eq-ok path s missing h = inr (ground arith)
  read_as-eq-ok path s unreadable h = cc

  read_file-eq-ok :
      (path s : String) → read_file env disk path name ≡ ok s → (disk path ≡ content s) ⊎ (s ≡ "")
  unfolding read_file
  read_file-eq-ok path s h = read_as-eq-ok path s (disk path) h

  blank_empty : (s : String) → s ≡ "" → is_set (strip s) ≡ false
  unfolding strip lstrip rstrip
  blank_empty s e = rw e refl

  from_file-required :
      (path : Option String) (default v : String) (message : Option String)
      → from_file env disk name path (fallback env disk name true default message) ≡ ok v
      → (is_set v ≡ true) × Held path v
  unfolding from_file fallback
  from_file-required none default v message h = cc
  from_file-required (some path) default v message h =
      let (s, e, k) = >>=-eq-ok (read_file env disk path name) _ h in
      elim (Bool-cases (is_set (strip s))) [
        | inl set ↦ elim (read_file-eq-ok path s e) [
          | inl held ↦
              let same : strip s ≡ v = ground arith in
              (subst (λ x. is_set x ≡ true) same set, (s, held, sym same))
          | inr empty ↦ absurd (ground (arith, blank_empty s empty))
        ]
        | inr blank ↦ cc
      ]

  -- A required secret that is read is not empty, and is the trimmed value of its variable or, when
  -- that is blank, what the file that the `_FILE` variable names holds, trimmed.
  pub required_secret :
      (default v : String) (message : Option String)
      → read_secret env disk name true default message ≡ ok v
      → (is_set v ≡ true)
        × ((v ≡ strip (or_default "" (env name)))
            ⊎ ((is_set (strip (or_default "" (env name))) ≡ false) × Held (source_file env name) v))
  unfolding read_secret
  required_secret default v message h =
      elim (Bool-cases (is_set (strip (or_default "" (env name))))) [
        | inl set ↦
            let same : strip (or_default "" (env name)) ≡ v = ground arith in
            (ground arith, inl (sym same))
        | inr blank ↦
            let (set, held) =
              from_file-required (source_file env name) default v message (rw blank at h) in
            (set, inr (blank, held))
      ]
