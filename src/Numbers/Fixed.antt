-- ===== src/Numbers/Fixed.antt =====
-- The laws can be met: fixed-point numbers in thousandths, rounded up.
use llm_kv_passthrough.Prelude.{
  ℕ, zero, suc, ◌+◌, ◌*◌, ◌/◌, ◌-◌, ◌^◌, ◌≤◌, ◌<◌, ltb, leb, ◌==◌, ◌≡◌, ap, true, le→leb, leb→le,
  lt→ltb, ltb→lt, arith,
}
use native.Mathlib.Nat.{div-mul-le_self, le-div_iff_mul-le, mul-le-mul_right, one-le-mul}
use llm_kv_passthrough.Numbers.{Numbers, NumberLaws}

abbrev pub up : ℕ → ℕ → ℕ
up n d = (n + (d - 1)) / d

instance abbrev pub fixed : Numbers ℕ
fixed = record {
  of_int = λ n. 1000 * n;
  of_decimal = λ d. up (1000 * d.digits) (10 ^ d.places);
  plus = λ a b. a + b;
  times = λ a b. up (a * b) 1000;
  divide = λ a b. up (1000 * a) b;
  lt = ltb;
  le = leb;
  is_zero = λ a. a == 0;
  truncate = λ a. a / 1000;
}

up_mono : (m n d : ℕ) → m ≤ n → 0 < d → up m d ≤ up n d
up_mono m n d h pos =
    let below = div-mul-le_self (m + (d - 1)) d in (le-div_iff_mul-le pos).1 (omega arith)

up_pos : (n d : ℕ) → 0 < n → 0 < d → 0 < up n d
up_pos n d h pos = let one : 1 * d ≤ n + (d - 1) = omega arith in (le-div_iff_mul-le pos).1 one

ten_pos : (n : ℕ) → 0 < 10 ^ n
ten_pos zero = omega arith
ten_pos (suc n) = let rest = ten_pos n in omega arith

times_le : (a b c : ℕ) → a ≤ b → a * c ≤ b * c
times_le a b c h = mul-le-mul_right c h

product_pos : (a b : ℕ) → 0 < a → 0 < b → 0 < a * b
product_pos a b h k = one-le-mul h k

nonneg : (a : ℕ) → leb 0 a ≡ true
nonneg a = le→leb 0 a (omega arith)

pub fixed-NumberLaws : NumberLaws ℕ
fixed-NumberLaws = record {
  le_refl = λ a. le→leb a a (omega arith);
  le_trans = λ a b c h k. ground arith;
  le_of_lt = λ a b h. ground arith;
  le_of_not_lt = λ a b h. ground arith;
  not_lt_of_le = λ a b h. ground arith;
  is_zero_of_lt = λ a h. ground arith;
  of_int_mono = λ m n h. ground arith;
  of_int_pos = λ n h. ground arith;
  of_decimal_pos =
      λ d h. lt→ltb 0 _ (up_pos (1000 * d.digits) (10 ^ d.places) (omega arith) (ten_pos d.places));
  plus_mono = λ a b c d h k. ground arith;
  le_plus = λ a b h. ground arith;
  times_mono = λ a b c h k.
      le→leb _ _ (up_mono (a * c) (b * c) 1000 (times_le a b c (leb→le a b h)) (omega arith));
  times_comm = λ a b. ap (λ n. up n 1000) (omega arith);
  times_nonneg = λ a b h k. nonneg (up (a * b) 1000);
  times_pos = λ a b h k.
      lt→ltb 0 _
        (up_pos (a * b) 1000 (product_pos a b (ltb→lt 0 a h) (ltb→lt 0 b k)) (omega arith));
  divide_mono = λ a b c h k.
      let h = leb→le a b h in
      le→leb _ _ (up_mono (1000 * a) (1000 * b) c (omega arith) (ltb→lt 0 c k));
  divide_nonneg = λ a b h k. nonneg (up (1000 * a) b);
  divide_pos = λ a b h k.
      let h = ltb→lt 0 a h in lt→ltb 0 _ (up_pos (1000 * a) b (omega arith) (ltb→lt 0 b k));
}
