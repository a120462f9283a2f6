-- ===== src/Numbers/Order.antt =====
-- What the tests and the maximum of the timing code do on floats that satisfy the laws.
use llm_kv_passthrough.Prelude.{ℕ, arith, ◌≡◌, refl, inl, inr, Bool-cases, false}
use llm_kv_passthrough.Prelude.Result.{ok}
use llm_kv_passthrough.Numbers.{Numbers, NumberLaws, nought, ◌≼◌, ◌≺◌, ratio, larger}

module _ {R : Type 0} ⦃numbers : Numbers R⦄ (law : NumberLaws R) where
  pub ratio_pos : (a b : R) → numbers.of_int 0 ≺ b → ratio numbers a b ≡ ok (numbers.divide a b)
  unfolding ratio
  ratio_pos a b h = rw (law.is_zero_of_lt b h) refl

  pub le_larger_left : (a b : R) → a ≼ larger numbers a b
  unfolding larger
  le_larger_left a b = elim (Bool-cases (numbers.lt a b)) [
    | inl e ↦ rw e (law.le_of_lt a b e)
    | inr e ↦ rw e (law.le_refl a)
  ]

  pub le_larger_right : (a b : R) → b ≼ larger numbers a b
  unfolding larger
  le_larger_right a b = elim (Bool-cases (numbers.lt a b)) [
    | inl e ↦ rw e (law.le_refl b)
    | inr e ↦ rw e (law.le_of_not_lt a b e)
  ]

  larger_le : (a b c : R) → a ≼ c → b ≼ c → larger numbers a b ≼ c
  unfolding larger
  larger_le a b c h k = elim (Bool-cases (numbers.lt a b)) [ inl e ↦ rw e k | inr e ↦ rw e h ]

  pub larger_mono : (a b c d : R) → a ≼ b → c ≼ d → larger numbers a c ≼ larger numbers b d
  larger_mono a b c d h k =
      larger_le a c (larger numbers b d) (law.le_trans a b _ h (le_larger_left b d))
        (law.le_trans c d _ k (le_larger_right b d))

  pub of_int_nonneg : (n : ℕ) → nought numbers ≼ numbers.of_int n
  of_int_nonneg n = law.of_int_mono 0 n (omega arith)

  pub times_mono_right :
      (a b c : R) → a ≼ b → nought numbers ≼ c → numbers.times c a ≼ numbers.times c b
  times_mono_right a b c h k =
      rw (law.times_comm c a, law.times_comm c b) (law.times_mono a b c h k)

  pub lt_of_lt_le : (a b c : R) → a ≺ b → b ≼ c → a ≺ c
  lt_of_lt_le a b c h k = elim (Bool-cases (numbers.lt a c)) [
    | inl e ↦ e
    | inr e ↦ let below = law.not_lt_of_le b a (law.le_trans _ _ _ k (law.le_of_not_lt a c e)) in cc
  ]

  pub not_le_of_lt : (a b : R) → a ≺ b → numbers.le b a ≡ false
  not_le_of_lt a b h = elim (Bool-cases (numbers.le b a)) [
    | inl e ↦ let other = law.not_lt_of_le b a e in cc
    | inr e ↦ e
  ]
