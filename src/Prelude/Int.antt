-- ===== src/Prelude/Int.antt =====
-- Python's int as a signed number, and the conversions str(n) and int(text).
use llm_kv_passthrough.Prelude.Tests.{
  ltb, leb, ◌==◌, if◌then◌else◌, Bool-cases, ltb→lt, ltb→le, le→leb,
}
use llm_kv_passthrough.Prelude.Strings.{Text}
use Prim.Native.Nat.{ℕ, zero, suc, ◌+◌, ◌-◌, ◌*◌, ◌/◌, ◌%◌, ◌≤◌, ◌<◌}
use mathlib.Core.Path.{◌≡◌, refl, ap, ◌∙◌}
use mathlib.Core.Logic.{inl, inr}
use mathlib.Core.Bool.{Bool, true, false, not, ◌&&◌, ◌||◌}
use mathlib.Core.Option.{Option, none, some}
use mathlib.Core.Option
use mathlib.Core.List.{[], ◌∷◌}
use native.Mathlib.Omega.{arith}
use llm_kv_passthrough.Prelude.Lists.{All}

-- `negsuc n` is -(n + 1).
pub data ℤ : Type 0 where
  pos : ℕ → ℤ
  negsuc : ℕ → ℤ

-- The decimal digits of n in front of a text; one unit of fuel for each digit.
decimal_from : ℕ → ℕ → Text → Text
decimal_from zero n rest = rest
decimal_from (suc fuel) n rest =
    let more = decimal_from fuel (n / 10) ((48 + n % 10) ∷ rest) in
    if ltb n 10 then (48 + n) ∷ rest else more

-- str(n) for n ≥ 0
unfoldable pub str : ℕ → Text
unfolding decimal_from
str n = decimal_from (suc n) n []

is_digit : ℕ → Bool
is_digit c = leb 48 c && leb c 57

-- The rest of a number after its first digit; one underscore may stand between two digits.
digits_from : Bool → ℕ → Text → Option ℕ
unfolding is_digit
digits_from underscore v [] = if underscore then none else some v
digits_from underscore v (c ∷ cs) = elim (is_digit c) [
  | true ↦ digits_from false (v * 10 + (c - 48)) cs
  | false ↦ elim (c == b'_' && not underscore) [ true ↦ digits_from true v cs | false ↦ none ]
]

unsigned : Text → Option ℕ
unfolding is_digit digits_from
unsigned [] = none
unsigned (c ∷ cs) = if is_digit c then digits_from false (c - 48) cs else none

negate : ℕ → ℤ
negate zero = pos 0
negate (suc n) = negsuc n

signed : Text → Option ℤ
unfolding unsigned negate
signed [] = none
signed (c ∷ cs) =
    if c == b'-'
    then Option.map negate (unsigned cs)
    else if c == b'+'
    then Option.map pos (unsigned cs)
    else Option.map pos (unsigned (c ∷ cs))

-- The ASCII white space that int() strips at both ends.
unfoldable pub is_space : ℕ → Bool
is_space c = leb 9 c && leb c 13 || leb 28 c && leb c 32

unfoldable pub strip_left : Text → Text
unfolding is_space
strip_left [] = []
strip_left (c ∷ cs) = elim (is_space c) [ true ↦ strip_left cs | false ↦ c ∷ cs ]

unfoldable pub strip_right : Text → Text
unfolding is_space
strip_right [] = []
strip_right (c ∷ cs) = elim (strip_right cs) [
  | [] ↦ if is_space c then [] else c ∷ []
  | d ∷ ds ↦ c ∷ d ∷ ds
]

-- int(text), with no value where it raises ValueError
unfoldable pub int : Text → Option ℤ
unfolding signed strip_left strip_right
int t = signed (strip_left (strip_right t))

-- A text of decimal digits.
abbrev pub AreDigits : Text → Type 0
AreDigits = All (λ c. (48 ≤ c) × (c ≤ 57))

decimal_from-AreDigits :
    (fuel n : ℕ) (rest : Text) → AreDigits rest → AreDigits (decimal_from fuel n rest)
unfolding decimal_from
decimal_from-AreDigits zero n rest h = h
decimal_from-AreDigits (suc fuel) n rest h = elim (Bool-cases (ltb n 10)) [
  | inl e ↦ rw e ((omega arith, let small = ltb→lt n 10 e in omega arith), h)
  | inr e ↦
      rw e (
        decimal_from-AreDigits fuel (n / 10) ((48 + n % 10) ∷ rest) ((omega arith, omega arith), h))
]

pub str-AreDigits : (n : ℕ) → AreDigits (str n)
unfolding str
str-AreDigits n = decimal_from-AreDigits (suc n) n [] tt

unsigned-decimal_from :
    (fuel n : ℕ) (rest : Text)
    → n < fuel
    → unsigned (decimal_from fuel n rest) ≡ digits_from false n rest
unfolding unsigned decimal_from digits_from
unsigned-decimal_from zero n rest h = absurd (omega arith)
unsigned-decimal_from (suc fuel) n rest h = elim (Bool-cases (ltb n 10)) [
  | inl e ↦
      let small = ltb→lt n 10 e in
      let same : 48 + n - 48 ≡ n = omega arith in
      rw e (
        rw (le→leb 48 (48 + n) (omega arith))
          (rw (le→leb (48 + n) 57 (omega arith)) (rw same refl)))
  | inr e ↦
      let large = ltb→le n 10 e in
      let same : n / 10 * 10 + (48 + n % 10 - 48) ≡ n = omega arith in
      rw e (
        unsigned-decimal_from fuel (n / 10) ((48 + n % 10) ∷ rest) (omega arith)
        ∙ step (n / 10) (n % 10) n same (omega arith))
]
  where
    step :
        (q r n : ℕ)
        → q * 10 + (48 + r - 48) ≡ n
        → r < 10
        → digits_from false q ((48 + r) ∷ rest) ≡ digits_from false n rest
    step q r n e h =
        rw (le→leb 48 (48 + r) (omega arith), digits_from)
          (rw (le→leb (48 + r) 57 (omega arith), digits_from) (rw e refl))

strip_left-digits : (t : Text) → AreDigits t → strip_left t ≡ t
unfolding strip_left is_space
strip_left-digits [] h = refl
strip_left-digits (c ∷ cs) h = ground arith

strip_right-digits : (t : Text) → AreDigits t → strip_right t ≡ t
unfolding strip_right is_space
strip_right-digits [] h = refl
strip_right-digits (c ∷ []) h = ground arith
strip_right-digits (c ∷ d ∷ ds) h = rw (strip_right-digits (d ∷ ds) h.1, strip_right) refl

signed-digits : (t : Text) → AreDigits t → signed t ≡ Option.map pos (unsigned t)
unfolding signed
signed-digits [] h = refl
signed-digits (c ∷ cs) h = ground arith

unsigned-str : (n : ℕ) → unsigned (str n) ≡ some n
unfolding str digits_from
unsigned-str n = unsigned-decimal_from (suc n) n [] (omega arith)

-- int() reads back what str() writes.
pub int-str : (n : ℕ) → int (str n) ≡ some (pos n)
unfolding int digits_from
int-str n =
    let digits = str-AreDigits n in
    rw (strip_right-digits (str n) digits) (
      rw (strip_left-digits (str n) digits)
        (signed-digits (str n) digits ∙ ap (Option.map pos) (unsigned-str n)))
