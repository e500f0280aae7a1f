-- ===== src/Prelude/Scan.antt =====
-- More of Python's text methods: `upper` (of the ASCII letters), slices, `join`, the words that the
-- regular expressions `\b` and `\w` see (of the ASCII characters), and decimal numbers.
use Prim.Native.Nat.{ℕ, zero, suc, ◌-◌, ◌≤◌, compare, Ordering}
use Prim.Native.Char.{Char, char, code, IsScalar}
use Prim.Native.String.{String}
use mathlib.Core.Bool.{Bool, false, ◌&&◌, ◌||◌}
use mathlib.Core.List.{List, [], ◌∷◌}
use mathlib.Core.Path.{◌≡◌, refl}
use mathlib.Core.Logic.{dite}
use native.Mathlib.Decide.{dec_le}
use native.Mathlib.Omega.{arith}
use secure_db_access_gateway.Prelude.Tests.{if◌then◌else◌, leb}
use secure_db_access_gateway.Prelude.Text.{is_set, code_eq, concat}

compare_lowered : (n : ℕ) → n ≤ 122 → compare (n - 32) 55296 ≡ Ordering.lt
compare_lowered n h = ground arith

pub lowered-IsScalar : (n : ℕ) → n ≤ 122 → IsScalar (n - 32)
lowered-IsScalar n h = rw (compare_lowered n h) tt

-- `a` .. `z` to `A` .. `Z`
upper_char : Char → Char
upper_char c =
    dite (dec_le 97 (code c))
      (λ above.
        dite (dec_le (code c) 122) (λ below. char (code c - 32) (lowered-IsScalar (code c) below))
          (λ _. c))
      (λ _. c)

-- s.upper()
unfoldable pub upper : String → String
unfolding upper_char
upper String.[] = String.[]
upper (String.◌∷◌ c s) = String.◌∷◌ (upper_char c) (upper s)

-- s[:n]
unfoldable pub take_text : ℕ → String → String
take_text zero s = ""
take_text (suc n) String.[] = ""
take_text (suc n) (String.◌∷◌ c s) = String.◌∷◌ c (take_text n s)

-- s[n:]
unfoldable pub drop_text : ℕ → String → String
drop_text zero s = s
drop_text (suc n) String.[] = ""
drop_text (suc n) (String.◌∷◌ c s) = drop_text n s

-- sep.join(words)
unfoldable pub join_text : String → List String → String
join_text sep [] = ""
join_text sep (w ∷ []) = w
join_text sep (w ∷ v ∷ ws) = let rest = join_text sep (v ∷ ws) in concat w (concat sep rest)

-- [A-Za-z0-9_]
unfoldable pub is_word_char : Char → Bool
unfolding code_eq
is_word_char c =
    (leb b'A' (code c) && leb (code c) b'Z')
    || (leb b'a' (code c) && leb (code c) b'z')
    || (leb b'0' (code c) && leb (code c) b'9')
    || code_eq (code c) b'_'

-- The text goes on with a character of a word.
unfoldable pub in_word : String → Bool
in_word String.[] = false
in_word (String.◌∷◌ c s) = is_word_char c

-- The words of a text, in order, from the word that is being read.
words_of_from : String → String → List String
unfolding is_word_char
words_of_from cur String.[] = if is_set cur then cur ∷ [] else []
words_of_from cur (String.◌∷◌ c s) =
    let closed = words_of_from "" s in
    let longer = words_of_from (concat cur (String.◌∷◌ c String.[])) s in
    if is_word_char c then longer else if is_set cur then cur ∷ closed else closed

-- What `\b\w+\b` finds, so that `\bX\b` finds a word X as often as X stands in the list.
unfoldable pub words_of : String → List String
unfolding words_of_from
words_of s = words_of_from "" s

upper_test : upper "Select a_1" ≡ "SELECT A_1"
unfolding upper dec_le
upper_test = refl

words_of_test : words_of "SELECT x.a,b2 FROM(x)" ≡ "SELECT" ∷ "x" ∷ "a" ∷ "b2" ∷ "FROM" ∷ "x" ∷ []
unfolding words_of
words_of_test = refl

join_text_test : join_text ", " ("a" ∷ "b" ∷ []) ≡ "a, b"
unfolding join_text
join_text_test = refl
