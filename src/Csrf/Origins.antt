-- ===== src/Csrf/Origins.antt =====
-- Which origins auth0_api/app/security/csrf.py trusts, stated on the configured URLs and the two
-- headers.
use secure_db_access_gateway.Prelude.{
  ℕ, String, Option, none, some, List, [], ◌∷◌, true, not, ◌&&◌, elem, ◌≡◌, ◌↔◌, ◌≢◌, ◌⊎◌, arith,
  eq_iff, refl, Bool-cases, inl, inr, In, here, there, ap, sym,
}
use secure_db_access_gateway.Prelude.Member.{
  not-In-nil, In-append, In-append_left, In-append_right, elem-In, In-elem,
}
use secure_db_access_gateway.Prelude.Text.{is_set, strip, lower}
use secure_db_access_gateway.Csrf.{
  Url, Settings, Request, normalize_origin, add_new, add_origin, add_origins, get_allowed_origins,
  origin_from_header, is_among, or_referer, request_origin_is_allowed,
}

module _ (urlparse : String → Option Url) (decimal : ℕ → String) where
  -- One of the URLs that are not empty has the origin, once trimmed.
  abbrev pub Configured : String → List String → Type 0
  Configured origin urls =
      (url : String) × In url urls
      × (is_set url ≡ true)
      × (normalize_origin urlparse decimal (strip url) ≡ some origin)
      × (is_set origin ≡ true)

  add_new-In :
      (o : Option String) (origin : String) (allowed : List String)
      → In origin (add_new urlparse decimal o allowed)
      → In origin allowed ⊎ ((o ≡ some origin) × (is_set origin ≡ true))
  unfolding add_new
  add_new-In none origin allowed h = inl h
  add_new-In (some p) origin allowed h = elim (Bool-cases (is_set p && not (elem p allowed))) [
    | inr old ↦ inl (rw old at h)
    | inl new ↦ elim (In-append allowed (rw new at h)) [
      | inl i ↦ inl i
      | inr (here e) ↦ let set : is_set p ≡ true = ground arith in inr (ap some (sym e), rw e set)
      | inr (there i) ↦ absurd (not-In-nil i)
    ]
  ]

  In-add_new_old :
      (o : Option String) (origin : String) (allowed : List String)
      → In origin allowed
      → In origin (add_new urlparse decimal o allowed)
  unfolding add_new
  In-add_new_old none origin allowed i = i
  In-add_new_old (some p) origin allowed i = elim (Bool-cases (is_set p && not (elem p allowed))) [
    | inr old ↦ rw old i
    | inl new ↦ rw new (In-append_left (p ∷ []) i)
  ]

  In-add_new :
      (origin : String) (allowed : List String)
      → is_set origin ≡ true
      → In origin (add_new urlparse decimal (some origin) allowed)
  unfolding add_new
  In-add_new origin allowed set = elim (Bool-cases (elem origin allowed)) [
    | inl old ↦ rw (set, old) (elem-In origin allowed old)
    | inr new ↦ rw (set, new) (In-append_right allowed (here refl))
  ]

  add_origins-In :
      (urls : List String) (origin : String) (allowed : List String)
      → In origin (add_origins urlparse decimal urls allowed)
      → In origin allowed ⊎ Configured origin urls
  unfolding add_origins add_origin
  add_origins-In [] origin allowed h = inl h
  add_origins-In (url ∷ urls) origin allowed h =
      elim (add_origins-In urls origin (add_origin urlparse decimal url allowed) h) [
        | inr (u, i, g, e, set) ↦ inr (u, there i, g, e, set)
        | inl i ↦ elim (Bool-cases (is_set url)) [
          | inr blank ↦ inl (rw blank at i)
          | inl given_url ↦
              elim (add_new-In (normalize_origin urlparse decimal (strip url)) origin allowed
                (rw given_url at i)) [
                  | inl j ↦ inl j
                  | inr (e, set) ↦ inr (url, here refl, given_url, e, set)
                ]
        ]
      ]

  In-add_origins_old :
      (urls : List String) (origin : String) (allowed : List String)
      → In origin allowed
      → In origin (add_origins urlparse decimal urls allowed)
  unfolding add_origins add_origin
  In-add_origins_old [] origin allowed i = i
  In-add_origins_old (url ∷ urls) origin allowed i =
      In-add_origins_old urls origin (add_origin urlparse decimal url allowed)
        (elim (Bool-cases (is_set url)) [
          | inr blank ↦ rw blank i
          | inl given_url ↦
              rw given_url
                (In-add_new_old (normalize_origin urlparse decimal (strip url)) origin allowed i)
        ])

  In-add_origins :
      (urls : List String) (origin : String) (allowed : List String)
      → Configured origin urls
      → In origin (add_origins urlparse decimal urls allowed)
  unfolding add_origins add_origin
  In-add_origins [] origin allowed (u, i, _, _, _) = absurd (not-In-nil i)
  In-add_origins (url ∷ urls) origin allowed (u, there i, g, e, set) =
      In-add_origins urls origin (add_origin urlparse decimal url allowed) (u, i, g, e, set)
  In-add_origins (url ∷ urls) origin allowed (u, here same, g, e, set) =
      let given_url : is_set url ≡ true = rw (← same) g in
      let its : normalize_origin urlparse decimal (strip url) ≡ some origin = rw (← same) e in
      In-add_origins_old urls origin (add_origin urlparse decimal url allowed)
        (rw (given_url, its) (In-add_new origin allowed set))

  -- A trusted origin is that of a configured URL.
  abbrev pub Trusted : Settings → String → Type 0
  Trusted s origin =
      Configured origin s.allowed_origins
      ⊎ Configured origin (s.react_app_url ∷ s.frontend_url ∷ [])

  pub allowed_iff :
      (s : Settings) (origin : String)
      → In origin (get_allowed_origins urlparse decimal s) ↔ Trusted s origin
  unfolding get_allowed_origins
  allowed_iff s origin =
      let first = add_origins urlparse decimal s.allowed_origins [] in
      let more = s.react_app_url ∷ s.frontend_url ∷ [] in
      (
        λ h. elim (add_origins-In more origin first h) [
          | inr c ↦ inr c
          | inl i ↦ elim (add_origins-In s.allowed_origins origin [] i) [
            | inl j ↦ absurd (not-In-nil j)
            | inr c ↦ inl c
          ]
        ],
        λ h. elim h [
          | inl c ↦
              In-add_origins_old more origin first (In-add_origins s.allowed_origins origin [] c)
          | inr c ↦ In-add_origins more origin first c
        ],
      )

  -- The header has a text, other than blanks and `null`, with this origin.
  abbrev pub Names : Option String → String → Type 0
  Names header origin =
      (text : String) × (header ≡ some text)
      × (is_set (strip text) ≡ true)
      × (lower (strip text) ≢ "null")
      × (normalize_origin urlparse decimal (strip text) ≡ some origin)

  origin_from_header_iff :
      (header : Option String) (origin : String)
      → (origin_from_header urlparse decimal header ≡ some origin) ↔ Names header origin
  unfolding origin_from_header strip
  origin_from_header_iff none origin = (λ h. cc, λ (t, e, _, _, _). cc)
  origin_from_header_iff (some text) origin = (
    λ h. (
      text,
      refl,
      ground arith,
      λ e. ground (arith, eq_iff (lower (strip text)) "null"),
      ground (arith, eq_iff (lower (strip text)) "null"),
    ),
    λ (t, e, set, n, o).
        let same : t ≡ text = ground arith in
        let set_text : is_set (strip text) ≡ true = rw (← same) set in
        let other : lower (strip text) ≢ "null" = rw (← same) n in
        let its : normalize_origin urlparse decimal (strip text) ≡ some origin = rw (← same) o in
        ground (arith, eq_iff (lower (strip text)) "null"),
  )

  -- A trusted origin stands in the `Origin` header, or, if that header has none, in the `Referer`.
  abbrev pub FromTrusted : Settings → Request → Type 0
  FromTrusted s r =
      (origin : String) × Trusted s origin
      × (Names (r.header "Origin") origin
          ⊎ (((other : String) → ¬ Names (r.header "Origin") other)
              × Names (r.header "Referer") origin))

  or_referer_iff :
      (first second : Option String) (allowed : List String)
      → (or_referer urlparse decimal first second allowed ≡ true) ↔ (
          (origin : String) × In origin allowed
          × ((first ≡ some origin)
              ⊎ (((other : String) → first ≢ some other) × (second ≡ some origin))))
  unfolding or_referer is_among
  or_referer_iff (some a) second allowed = (
    λ h. (a, elem-In a allowed h, inl refl),
    λ (origin, i, found). elim found [
      | inl e ↦ let same : a ≡ origin = ground arith in rw same (In-elem origin allowed i)
      | inr (n, _) ↦ absurd (n a refl)
    ],
  )
  or_referer_iff none (some b) allowed = (
    λ h. (b, elem-In b allowed h, inr (λ other e. cc, refl)),
    λ (origin, i, found). elim found [
      | inl e ↦ cc
      | inr (n, e) ↦ let same : b ≡ origin = ground arith in rw same (In-elem origin allowed i)
    ],
  )
  or_referer_iff none none allowed =
      (λ h. cc, λ (origin, i, found). elim found [ inl e ↦ cc | inr (n, e) ↦ cc ])

  pub request_origin_iff :
      (s : Settings) (r : Request)
      → (request_origin_is_allowed urlparse decimal s r ≡ true) ↔ FromTrusted s r
  unfolding request_origin_is_allowed
  request_origin_iff s r =
      let first = origin_from_header urlparse decimal (r.header "Origin") in
      let second = origin_from_header urlparse decimal (r.header "Referer") in
      let both = or_referer_iff first second (get_allowed_origins urlparse decimal s) in
      let at_first = origin_from_header_iff (r.header "Origin") in
      let at_second = origin_from_header_iff (r.header "Referer") in
      (
        λ h.
            let (origin, i, found) = both.0 h in
            (
              origin,
              (allowed_iff s origin).0 i,
              elim found [
                | inl e ↦ inl ((at_first origin).0 e)
                | inr (n, e) ↦
                    inr (λ other names. n other ((at_first other).1 names), (at_second origin).0 e)
              ],
            ),
        λ (origin, trusted, found). both.1 (
          origin,
          (allowed_iff s origin).1 trusted,
          elim found [
            | inl names ↦ inl ((at_first origin).1 names)
            | inr (n, names) ↦
                inr (λ other e. n other ((at_first other).0 e), (at_second origin).1 names)
          ],
        ),
      )
