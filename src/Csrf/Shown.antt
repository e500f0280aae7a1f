-- ===== src/Csrf/Shown.antt =====
-- The fetch metadata and the cookie that `csrf_failure_reason` of auth0_api/app/security/csrf.py reads,
-- stated on the header and on the cookies.
use secure_db_access_gateway.Prelude.{
  ℕ, String, Option, none, some, true, false, elem, if◌then◌else◌, ◌≡◌, ◌↔◌, ◌⊎◌, arith, eq_iff,
  refl, Bool-cases, inl, inr, ap, subst,
}
use secure_db_access_gateway.Prelude.Text.{is_set, lower}
use secure_db_access_gateway.Csrf.{
  Url, Settings, Request, given, csrf_cookie_name, same_site, cookie_token,
}

module _ (urlparse : String → Option Url) (decimal : ℕ → String) where
  pub given-some : (o : Option String) (v : String) → is_set v ≡ true → given o ≡ v → o ≡ some v
  given-some none v set e = let unset : is_set v ≡ false = rw (← e) refl in absurd (cc (set, unset))
  given-some (some w) v set e = ap some e

  -- The fetch is not known to be cross-site.
  abbrev pub SameSite : Option String → Type 0
  SameSite header =
      (site : String)
      → header ≡ some site
      → (is_set site ≡ false) ⊎ ((lower site ≡ "same-origin") ⊎ (lower site ≡ "same-site"))

  pub same_site_iff :
      (header : Option String) → (same_site urlparse decimal header ≡ true) ↔ SameSite header
  unfolding elem
  same_site_iff none = (λ h site e. cc, λ h. refl)
  same_site_iff (some v) = (
    λ h site e.
        let same : v ≡ site = ground arith in
        subst (λ x. (is_set x ≡ false) ⊎ ((lower x ≡ "same-origin") ⊎ (lower x ≡ "same-site"))) same
          (of_elem v h),
    λ h. elim (h v refl) [
      | inl blank ↦ ground arith
      | inr (inl e) ↦ ground (arith, eq_iff (lower v) "same-origin", eq_iff "same-origin" (lower v))
      | inr (inr e) ↦ ground (arith, eq_iff (lower v) "same-site", eq_iff "same-site" (lower v))
    ],
  )
    where
      of_elem :
          (x : String)
          → same_site urlparse decimal (some x) ≡ true
          → (is_set x ≡ false) ⊎ ((lower x ≡ "same-origin") ⊎ (lower x ≡ "same-site"))
      of_elem x h = ground (
        arith,
        eq_iff (lower x) "same-origin",
        eq_iff "same-origin" (lower x),
        eq_iff (lower x) "same-site",
        eq_iff "same-site" (lower x),
      )

  -- The cookie of the current name, which depends on whether the cookie is secure.
  abbrev pub Named : Settings → Request → String → Type 0
  Named s r v =
      (is_set v ≡ true)
      × (((s.session_cookie_secure ≡ true) × (r.cookie "__Host-csrf_token" ≡ some v))
          ⊎ ((s.session_cookie_secure ≡ false) × (r.cookie "csrf_token" ≡ some v)))

  -- The token of the cookies: that of the current name, or else the plain one.
  abbrev pub InCookie : Settings → Request → String → Type 0
  InCookie s r token =
      Named s r token ⊎ (((v : String) → ¬ Named s r v) × (r.cookie "csrf_token" ≡ some token))

  current_cookie_iff :
      (s : Settings) (r : Request) (v : String)
      → ((is_set v ≡ true) × (r.cookie (csrf_cookie_name s) ≡ some v)) ↔ Named s r v
  unfolding csrf_cookie_name
  current_cookie_iff s r v = elim (Bool-cases s.session_cookie_secure) [
    | inl secure ↦ rw secure (ground arith)
    | inr plain ↦ rw plain (ground arith)
  ]

  named_or_plain :
      (named plain : Option String) (token : String)
      → is_set token ≡ true
      → ((if is_set (given named) then given named else given plain) ≡ token) ↔ (
          ((is_set token ≡ true) × (named ≡ some token))
          ⊎ (((v : String) → ¬ ((is_set v ≡ true) × (named ≡ some v))) × (plain ≡ some token)))
  named_or_plain none plain token set = (
    λ h. inr (λ v (_, e). cc, given-some plain token set h),
    λ h. elim h [ inl (_, e) ↦ cc | inr (n, e) ↦ ap given e ],
  )
  named_or_plain (some w) plain token set = elim (Bool-cases (is_set w)) [
    | inl is ↦ (
      λ h. inl (set, ap some (rw is at h)),
      λ h. elim h [ inl (_, e) ↦ rw is (ap given e) | inr (n, e) ↦ absurd (n w (is, refl)) ],
    )
    | inr blank ↦ (
      λ h. inr (
        λ v (w_set, e).
            let same : w ≡ v = ap given e in
            let its : is_set w ≡ true = rw same w_set in absurd (cc (its, blank)),
        given-some plain token set (rw blank at h),
      ),
      λ h. elim h [
        | inl (w_set, e) ↦
            let same : w ≡ token = ap given e in
            let its : is_set w ≡ true = rw same w_set in absurd (cc (its, blank))
        | inr (n, e) ↦ rw blank (ap given e)
      ],
    )
  ]

  pub cookie_token_iff :
      (s : Settings) (r : Request) (token : String)
      → is_set token ≡ true
      → (cookie_token urlparse decimal s r ≡ token) ↔ InCookie s r token
  unfolding cookie_token
  cookie_token_iff s r token set =
      let either =
        named_or_plain (r.cookie (csrf_cookie_name s)) (r.cookie "csrf_token") token set in
      (
        λ h. elim (either.0 h) [
          | inl named ↦ inl ((current_cookie_iff s r token).0 named)
          | inr (n, e) ↦ inr (λ v named. n v ((current_cookie_iff s r v).1 named), e)
        ],
        λ h. elim h [
          | inl named ↦ either.1 (inl ((current_cookie_iff s r token).1 named))
          | inr (n, e) ↦ either.1 (inr (λ v named. n v ((current_cookie_iff s r v).0 named), e))
        ],
      )
