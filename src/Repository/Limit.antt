-- ===== src/Repository/Limit.antt =====
-- `_ensure_limit` of sql_query_api/repositories/sql_query_repository.py, with its two regular
-- expressions (of the ASCII digits and word characters). `decimal` writes a number.
use Prim.Native.Nat.{min}
use Prim.Native.Char.{Char, code}
use Prim.Native.String.{count}
use secure_db_access_gateway.Prelude.{
  ℕ, ◌+◌, ◌-◌, ◌*◌, ◌≤◌, String, Option, none, some, [], ◌∷◌, Bool, false, ◌&&◌, leb, if◌then◌else◌,
  starts_with, ◌≡◌, arith, refl,
}
use secure_db_access_gateway.Prelude.Text.{rstrip, rstrip_chars, is_space, concat}
use secure_db_access_gateway.Prelude.Scan.{upper, drop_text, in_word, is_word_char}

-- A word in any case, what stands behind it.
unfoldable pub word_ci : String → String → Option String
word_ci w s = if starts_with (upper s) w then some (drop_text (count w) s) else none

spaces : String → String
spaces String.[] = String.[]
spaces (String.◌∷◌ c s) = let rest = spaces s in if is_space c then rest else String.◌∷◌ c s

-- \s+
unfoldable pub spaces1 : String → Option String
unfolding spaces
spaces1 String.[] = none
spaces1 (String.◌∷◌ c s) = if is_space c then some (spaces s) else none

is_digit : Char → Bool
is_digit c = leb b'0' (code c) && leb (code c) b'9'

digits : ℕ → String → ℕ × String
unfolding is_digit
digits n String.[] = (n, String.[])
digits n (String.◌∷◌ c s) =
    let rest = digits (n * 10 + (code c - b'0')) s in
    if is_digit c then rest else (n, String.◌∷◌ c s)

-- (\d+), as a number
unfoldable pub digits1 : String → Option (ℕ × String)
unfolding digits
digits1 String.[] = none
digits1 (String.◌∷◌ c s) = if is_digit c then some (digits 0 (String.◌∷◌ c s)) else none

infixl 5 ◌>>=◌
abbrev ◌>>=◌ : {A B : Type 0} → Option A → (A → Option B) → Option B
none >>= f = none
some a >>= f = f a

-- \b behind a character of a word
abbrev ends : String → Option String
ends s = if in_word s then none else some s

abbrev or_rest : Option String → String → Option String
or_rest (some s) t = some s
or_rest none t = ends t

-- (?:\s+ONLY)?\b
unfoldable pub only_end : String → Option String
only_end s = or_rest (spaces1 s >>= λ a. word_ci "ONLY" a >>= ends) s

-- FETCH\s+FIRST\s+(\d+)\s+ROWS(?:\s+ONLY)?\b
unfoldable pub match_fetch : String → Option (ℕ × String)
unfolding word_ci spaces1 digits1 only_end
match_fetch s = do
  a ← word_ci "FETCH" s
  b ← spaces1 a
  c ← word_ci "FIRST" b
  d ← spaces1 c
  n ← digits1 d
  e ← spaces1 n.1
  f ← word_ci "ROWS" e
  g ← only_end f
  some (n.0, g)

-- LIMIT\s+(\d+)\b
unfoldable pub match_limit : String → Option (ℕ × String)
unfolding word_ci spaces1 digits1
match_limit s = do a ← word_ci "LIMIT" s; b ← spaces1 a; n ← digits1 b; e ← ends n.1; some (n.0, e)

pub record Found : Type 0 where
  pub before : String
  pub number : ℕ
  pub behind : String

abbrev found_or : String → Option (ℕ × String) → Option Found → Option Found
found_or before (some (n, behind)) rest =
    some (record { before = before; number = n; behind = behind })
found_or before none rest = rest

-- re.search(r"\b...", s): the first place behind no character of a word where the pattern matches.
-- The text before it, and whether that ends in a word, are the arguments.
unfoldable pub search_from : (String → Option (ℕ × String)) → Bool → String → String → Option Found
search_from pattern inside before String.[] = none
search_from pattern inside before (String.◌∷◌ c s) =
    let rest = search_from pattern (is_word_char c) (concat before (String.◌∷◌ c String.[])) s in
    if inside then rest else found_or before (pattern (String.◌∷◌ c s)) rest

abbrev pub search : (String → Option (ℕ × String)) → String → Option Found
search pattern s = search_from pattern false "" s

module _ (decimal : ℕ → String) (max_row_limit : ℕ) where
  -- The match replaced by a bounded LIMIT.
  abbrev pub bounded : Found → String
  bounded f =
      concat f.before (concat "LIMIT " (concat (decimal (min f.number max_row_limit)) f.behind))

  -- `f"{sql} LIMIT {default_limit}"` is the replacement of nothing behind the text and a space.
  abbrev appended : String → Found
  appended sql = record { before = concat sql " "; number = 100; behind = "" }

  abbrev or_appended : String → Option Found → Found
  or_appended sql (some f) = f
  or_appended sql none = appended sql

  abbrev or_limit : String → Option Found → Found
  or_limit sql (some f) = f
  or_limit sql none = or_appended sql (search match_limit sql)

  abbrev trimmed : String → String
  trimmed text = rstrip (rstrip_chars (b';' ∷ []) text)

  -- _ensure_limit
  unfoldable pub ensure_limit : String → String
  ensure_limit text = bounded (or_limit (trimmed text) (search match_fetch (trimmed text)))

  -- A LIMIT that the row limit allows stands in the text.
  abbrev pub Bounded : String → Type 0
  Bounded sql =
      (before behind : String) × (n : ℕ) × (n ≤ max_row_limit)
      × (sql ≡ concat before (concat "LIMIT " (concat (decimal n) behind)))

  pub ensure_limit-Bounded : (text : String) → Bounded (ensure_limit text)
  unfolding ensure_limit
  ensure_limit-Bounded text =
      let f = or_limit (trimmed text) (search match_fetch (trimmed text)) in
      (f.before, f.behind, min f.number max_row_limit, omega arith, refl)
