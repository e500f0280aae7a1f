-- ===== src/Prelude/Text.antt =====
-- Python's text methods over the native `String`: `lower` (of the ASCII letters: other letters are
-- left as they are), `strip`, `replace` of one character by nothing, `rsplit(c, 1)[-1]`, `split(c)`
-- and substring tests.
use Prim.Native.Nat.{ℕ, ◌+◌, ◌≤◌, compare, Ordering}
use Prim.Native.Char.{Char, char, code, IsScalar}
use Prim.Native.String
use Prim.Native.String.{String}
use mathlib.Core.Path.{◌≡◌, refl}
use mathlib.Core.Bool.{Bool, true, false, ◌&&◌, ◌||◌}
use mathlib.Core.List.{List, [], ◌∷◌}
use mathlib.Core.Logic.{dite, dif_pos, dif_neg}
use native.Mathlib.Decide.{dec_le}
use native.Mathlib.Bridge.{le_prop}
use native.Mathlib.Omega.{arith}
use text.Mathlib.Text.{◌==◌, starts_with}
use secure_db_access_gateway.Prelude.Tests.{if◌then◌else◌, leb}

unfoldable pub code_eq : ℕ → ℕ → Bool
code_eq a b = elim (compare a b) [ Ordering.eq ↦ true | _ ↦ false ]

compare_small : (n : ℕ) → n ≤ 90 → compare (n + 32) 55296 ≡ Ordering.lt
compare_small n h = ground arith

pub small-IsScalar : (n : ℕ) → n ≤ 90 → IsScalar (n + 32)
small-IsScalar n h = rw (compare_small n h) tt

-- `A` .. `Z` to `a` .. `z`
lower_char : Char → Char
lower_char c =
    dite (dec_le 65 (code c))
      (λ above.
        dite (dec_le (code c) 90) (λ below. char (code c + 32) (small-IsScalar (code c) below))
          (λ _. c))
      (λ _. c)

unfoldable pub lower : String → String
unfolding lower_char
lower String.[] = String.[]
lower (String.◌∷◌ c s) = String.◌∷◌ (lower_char c) (lower s)

raised : (n : ℕ) → 65 ≤ n → 65 ≤ n + 32
raised n h = omega arith

past : (n : ℕ) → 65 ≤ n → ¬ (n + 32 ≤ 90)
past n h = omega arith

lower_char_idem : (c : Char) → lower_char (lower_char c) ≡ lower_char c
unfolding lower_char
lower_char_idem c = elim (dec_le 65 (code c)) [
  | yes a ↦ elim (dec_le (code c) 90) [
    | yes b ↦ rw (
      dif_pos _ le_prop a,
      dif_pos _ le_prop b,
      dif_pos _ le_prop (raised (code c) a),
      dif_neg _ (past (code c) a),
    )
    | no b ↦ rw (dif_pos _ le_prop a, dif_neg _ b, dif_pos _ le_prop a, dif_neg _ b)
  ]
  | no a ↦ rw (dif_neg _ a, dif_neg _ a)
]

pub lower_idem : (s : String) → lower (lower s) ≡ lower s
unfolding lower
lower_idem String.[] = refl
lower_idem (String.◌∷◌ c s) = cc (lower_char_idem c, lower_idem s)

-- str.isspace of one character
unfoldable pub is_space : Char → Bool
unfolding code_eq
is_space c =
    (leb 9 (code c) && leb (code c) 13)
    || (leb 28 (code c) && leb (code c) 32)
    || code_eq (code c) 0x85
    || code_eq (code c) 0xa0
    || code_eq (code c) 0x1680
    || (leb 0x2000 (code c) && leb (code c) 0x200a)
    || code_eq (code c) 0x2028
    || code_eq (code c) 0x2029
    || code_eq (code c) 0x202f
    || code_eq (code c) 0x205f
    || code_eq (code c) 0x3000

unfoldable pub lstrip : String → String
unfolding is_space
lstrip String.[] = String.[]
lstrip (String.◌∷◌ c s) = let rest = lstrip s in if is_space c then rest else String.◌∷◌ c s

-- A character that ends up last is dropped if it is a space.
rstrip_cons : Char → String → String
unfolding is_space
rstrip_cons c String.[] = if is_space c then String.[] else String.◌∷◌ c String.[]
rstrip_cons c (String.◌∷◌ d s) = String.◌∷◌ c (String.◌∷◌ d s)

unfoldable pub rstrip : String → String
unfolding rstrip_cons
rstrip String.[] = String.[]
rstrip (String.◌∷◌ c s) = rstrip_cons c (rstrip s)

unfoldable pub strip : String → String
unfolding lstrip rstrip
strip s = rstrip (lstrip s)

one_of : List ℕ → ℕ → Bool
unfolding code_eq
one_of [] c = false
one_of (n ∷ ns) c = code_eq c n || one_of ns c

lstrip_chars : List ℕ → String → String
unfolding one_of
lstrip_chars ns String.[] = String.[]
lstrip_chars ns (String.◌∷◌ c s) =
    let rest = lstrip_chars ns s in if one_of ns (code c) then rest else String.◌∷◌ c s

keep_last : List ℕ → Char → String → String
unfolding one_of
keep_last ns c String.[] = if one_of ns (code c) then String.[] else String.◌∷◌ c String.[]
keep_last ns c (String.◌∷◌ d s) = String.◌∷◌ c (String.◌∷◌ d s)

unfoldable pub rstrip_chars : List ℕ → String → String
unfolding keep_last
rstrip_chars ns String.[] = String.[]
rstrip_chars ns (String.◌∷◌ c s) = keep_last ns c (rstrip_chars ns s)

-- s.strip(chars)
unfoldable pub strip_chars : List ℕ → String → String
unfolding lstrip_chars rstrip_chars
strip_chars ns s = rstrip_chars ns (lstrip_chars ns s)

-- Python's truth of a text
abbrev pub is_set : String → Bool
is_set String.[] = false
is_set (String.◌∷◌ c s) = true

-- `s.strip()` used as a test
unfoldable pub has_text : String → Bool
unfolding strip
has_text s = is_set (strip s)

-- s.replace(c, "")
unfoldable pub remove_char : ℕ → String → String
unfolding code_eq
remove_char n String.[] = String.[]
remove_char n (String.◌∷◌ c s) =
    let rest = remove_char n s in if code_eq (code c) n then rest else String.◌∷◌ c rest

after_last_from : ℕ → String → String → String
unfolding code_eq
after_last_from n best String.[] = best
after_last_from n best (String.◌∷◌ c s) =
    after_last_from n (if code_eq (code c) n then s else best) s

-- s.split(c)[-1]
unfoldable pub after_last : ℕ → String → String
unfolding after_last_from
after_last n s = after_last_from n s s

-- t in s
unfoldable pub contains : String → String → Bool
contains t String.[] = t == ""
contains t (String.◌∷◌ c s) = starts_with (String.◌∷◌ c s) t || contains t s

split_push : Char → List String → List String
split_push c [] = String.◌∷◌ c String.[] ∷ []
split_push c (w ∷ ws) = String.◌∷◌ c w ∷ ws

-- s.split(c)
unfoldable pub split_on : ℕ → String → List String
unfolding code_eq split_push
split_on n String.[] = "" ∷ []
split_on n (String.◌∷◌ c s) =
    let rest = split_on n s in if code_eq (code c) n then "" ∷ rest else split_push c rest

-- The text before and after the first occurrence of a character, as `s.partition(c)` gives them.
unfoldable pub before_first : ℕ → String → String
unfolding code_eq
before_first n String.[] = String.[]
before_first n (String.◌∷◌ c s) =
    let rest = before_first n s in if code_eq (code c) n then String.[] else String.◌∷◌ c rest

unfoldable pub after_first : ℕ → String → String
unfolding code_eq
after_first n String.[] = String.[]
after_first n (String.◌∷◌ c s) =
    let rest = after_first n s in if code_eq (code c) n then s else rest

-- The words of s.split(), from the word that is being read
words_from : String → String → List String
unfolding is_space
words_from cur String.[] = if is_set cur then cur ∷ [] else []
words_from cur (String.◌∷◌ c s) =
    let closed = words_from "" s in
    let longer = words_from (String.◌++◌ cur (String.◌∷◌ c String.[])) s in
    if is_space c then (if is_set cur then cur ∷ closed else closed) else longer

unfoldable pub words : String → List String
unfolding words_from
words s = words_from "" s

partition_test :
    (before_first b' ' "Bearer a b" ≡ "Bearer") × (after_first b' ' "Bearer a b" ≡ "a b")
unfolding before_first after_first
partition_test = (refl, refl)

words_test : words " openid  x " ≡ "openid" ∷ "x" ∷ []
unfolding words
words_test = refl

lower_test : lower "Deny-ALL" ≡ "deny-all"
unfolding lower dec_le
lower_test = refl

strip_test : strip "  a b\n " ≡ "a b"
unfolding strip
strip_test = refl

after_last_test : after_last b'.' "pg_catalog.x.y" ≡ "y"
unfolding after_last
after_last_test = refl

split_test : split_on b',' "a,,b" ≡ "a" ∷ "" ∷ "b" ∷ []
unfolding split_on
split_test = refl

-- s + t
abbrev pub concat : String → String → String
concat s t = String.◌++◌ s t
