-- ===== src/Numbers.antt =====
-- The floats of the timing code (src/kvbench/core/latency.py and src/kvbench/timing): the operations
-- that the code calls, and the laws of floats that its estimates rest on. Python's floats are not
-- under src, so both are parameters.
pub mod Order
pub mod Fixed
use llm_kv_passthrough.Prelude.{ℕ, zero, ◌≤◌, ◌<◌, ◌^◌, ◌≡◌, Bool, true, false, if◌then◌else◌}
use llm_kv_passthrough.Prelude.Result.{Result, ok, err, zero_division}

-- A literal of the source: digits / 10 ^ places.
pub record Decimal : Type 0 where
  pub digits : ℕ
  pub places : ℕ

pub record Numbers (R : Type 0) : Type 0 where
  pub of_int : ℕ → R
  pub of_decimal : Decimal → R
  pub plus : R → R → R
  pub times : R → R → R
  pub divide : R → R → R
  pub lt : R → R → Bool
  pub le : R → R → Bool
  pub is_zero : R → Bool
  pub truncate : R → ℕ

module _ {R : Type 0} (numbers : Numbers R) where
  -- 0.0
  abbrev pub nought : R
  nought = numbers.of_int 0

  -- A literal with so many zeros, as 1e12.
  abbrev pub power_of_ten : ℕ → R
  power_of_ten n = numbers.of_decimal (record { digits = 10 ^ n; places = 0 })

  -- Python's a / b
  unfoldable pub ratio : R → R → Result R
  ratio a b = if numbers.is_zero b then err zero_division else ok (numbers.divide a b)

  -- Python's max(a, b)
  unfoldable pub larger : R → R → R
  larger a b = if numbers.lt a b then b else a

infix 4 ◌≼◌ ◌≺◌
abbrev pub ◌≼◌ : {R : Type 0} ⦃numbers : Numbers R⦄ → R → R → Type 0
◌≼◌ ⦃numbers⦄ a b = numbers.le a b ≡ true

abbrev pub ◌≺◌ : {R : Type 0} ⦃numbers : Numbers R⦄ → R → R → Type 0
◌≺◌ ⦃numbers⦄ a b = numbers.lt a b ≡ true

-- The laws of finite floats, rounded to the nearest: the order is total, and every operation is
-- monotone and keeps the sign. They leave out NaN, overflow to infinity and underflow to zero.
pub record NumberLaws (R : Type 0) ⦃numbers : Numbers R⦄ : Type 0 where
  pub le_refl : (a : R) → a ≼ a
  pub le_trans : (a b c : R) → a ≼ b → b ≼ c → a ≼ c
  pub le_of_lt : (a b : R) → a ≺ b → a ≼ b
  pub le_of_not_lt : (a b : R) → numbers.lt a b ≡ false → b ≼ a
  pub not_lt_of_le : (a b : R) → a ≼ b → numbers.lt b a ≡ false
  pub is_zero_of_lt : (a : R) → numbers.of_int 0 ≺ a → numbers.is_zero a ≡ false
  pub of_int_mono : (m n : ℕ) → m ≤ n → numbers.of_int m ≼ numbers.of_int n
  pub of_int_pos : (n : ℕ) → 0 < n → numbers.of_int 0 ≺ numbers.of_int n
  pub of_decimal_pos : (d : Decimal) → 0 < d.digits → numbers.of_int 0 ≺ numbers.of_decimal d
  pub plus_mono : (a b c d : R) → a ≼ b → c ≼ d → numbers.plus a c ≼ numbers.plus b d
  pub le_plus : (a b : R) → numbers.of_int 0 ≼ b → a ≼ numbers.plus a b
  pub times_mono :
      (a b c : R) → a ≼ b → numbers.of_int 0 ≼ c → numbers.times a c ≼ numbers.times b c
  pub times_comm : (a b : R) → numbers.times a b ≡ numbers.times b a
  pub times_nonneg :
      (a b : R) → numbers.of_int 0 ≼ a → numbers.of_int 0 ≼ b → numbers.of_int 0 ≼ numbers.times a b
  pub times_pos :
      (a b : R) → numbers.of_int 0 ≺ a → numbers.of_int 0 ≺ b → numbers.of_int 0 ≺ numbers.times a b
  pub divide_mono :
      (a b c : R) → a ≼ b → numbers.of_int 0 ≺ c → numbers.divide a c ≼ numbers.divide b c
  pub divide_nonneg :
      (a b : R)
      → numbers.of_int 0 ≼ a
      → numbers.of_int 0 ≺ b
      → numbers.of_int 0 ≼ numbers.divide a b
  pub divide_pos :
      (a b : R)
      → numbers.of_int 0 ≺ a
      → numbers.of_int 0 ≺ b
      → numbers.of_int 0 ≺ numbers.divide a b
