-- ===== src/Timing/Overhead.antt =====
-- The times of communication return over a link with bandwidth, and grow with the tokens.
use llm_kv_passthrough.Prelude.{
  ℕ, ◌-◌, ◌*◌, ◌≤◌, ◌≡◌, refl, inl, inr, Bool, true, false, not, ◌||◌, leb, Bool-cases, arith,
}
use native.Mathlib.Nat.{mul-le-mul_right, mul-le-mul_left}
use llm_kv_passthrough.Prelude.Result.{Result, ok}
use llm_kv_passthrough.Numbers.{Numbers, NumberLaws, nought, power_of_ten, ◌≼◌, ◌≺◌}
use llm_kv_passthrough.Numbers.Order.{ratio_pos, of_int_nonneg, times_mono_right}
use llm_kv_passthrough.Models.{bytes_per_element}
use llm_kv_passthrough.Timing.{
  calculate_allreduce_message_size, calculate_allreduce_ms, calculate_activation_size,
  calculate_pipeline_send_recv_ms,
}
use llm_kv_passthrough.Timing.Roofline.{
  RooflineStrategy, allreduce_overhead_ms, pipeline_overhead_ms,
}

||-eq-false : (b c : Bool) → (b || c) ≡ false → c ≡ false
||-eq-false true c h = cc
||-eq-false false c h = h

product_mono : (b h d m n : ℕ) → m ≤ n → b * m * h * d ≤ b * n * h * d
product_mono b h d m n le = mul-le-mul_right d (mul-le-mul_right h (mul-le-mul_left b le))

module _ {R : Type 0} ⦃numbers : Numbers R⦄ (law : NumberLaws R) where
  -- Two runs that return, the first one no slower, and both no time below zero.
  pub record NoSlower (fast slow : Result R) : Type 0 where
    pub fast_ms : R
    pub slow_ms : R
    pub fast_returns : fast ≡ ok fast_ms
    pub slow_returns : slow ≡ ok slow_ms
    pub no_slower : fast_ms ≼ slow_ms
    pub nonneg : nought numbers ≼ fast_ms

  NoSlower-refl : (ms : R) → nought numbers ≼ ms → NoSlower (ok ms) (ok ms)
  NoSlower-refl ms h = record {
    fast_ms = ms;
    slow_ms = ms;
    fast_returns = refl;
    slow_returns = refl;
    no_slower = law.le_refl ms;
    nonneg = h;
  }

  -- The share of a ring that one GPU moves, and the time of a message over it.
  abbrev ring_share : ℕ → R
  ring_share tp = numbers.divide (numbers.of_int (2 * (tp - 1))) (numbers.of_int tp)

  abbrev ring_ms : ℕ → R → ℕ → R
  ring_ms tp link size =
      numbers.divide (numbers.times (ring_share tp) (numbers.of_int size))
        (numbers.times link (power_of_ten numbers 6))

  module _ (link : R) (has_link : nought numbers ≺ link) where
    rate_pos : nought numbers ≺ numbers.times link (power_of_ten numbers 6)
    rate_pos = law.times_pos _ _ has_link (law.of_decimal_pos _ (omega arith))

    ring_share_nonneg : (tp : ℕ) → leb tp 1 ≡ false → nought numbers ≼ ring_share tp
    ring_share_nonneg tp e =
        law.divide_nonneg _ _ (of_int_nonneg law _) (law.of_int_pos tp (ground arith))

    calculate_allreduce_ms-ok :
        (size tp : ℕ)
        → leb tp 1 ≡ false
        → calculate_allreduce_ms numbers size tp link ≡ ok (ring_ms tp link size)
    unfolding calculate_allreduce_ms
    calculate_allreduce_ms-ok size tp e = rw e (ratio_pos law _ _ rate_pos)

    ring_ms_mono : (m n tp : ℕ) → leb tp 1 ≡ false → m ≤ n → ring_ms tp link m ≼ ring_ms tp link n
    ring_ms_mono m n tp e h =
        law.divide_mono _ _ _
          (times_mono_right law _ _ (ring_share tp) (law.of_int_mono m n h)
            (ring_share_nonneg tp e))
          rate_pos

    ring_ms_nonneg : (n tp : ℕ) → leb tp 1 ≡ false → nought numbers ≼ ring_ms tp link n
    ring_ms_nonneg n tp e =
        law.divide_nonneg _ _ (law.times_nonneg _ _ (ring_share_nonneg tp e) (of_int_nonneg law n))
          rate_pos

    -- The time of a message between two stages, with 5 microseconds for itself.
    abbrev message_ms : ℕ → R
    message_ms size =
        numbers.plus
          (numbers.divide (numbers.of_decimal (record { digits = 5; places = 0 }))
            (power_of_ten numbers 3))
          (numbers.divide (numbers.of_int size) (numbers.times link (power_of_ten numbers 6)))

    message_ms_mono : (m n : ℕ) → m ≤ n → message_ms m ≼ message_ms n
    message_ms_mono m n h =
        law.plus_mono _ _ _ _ (law.le_refl _)
          (law.divide_mono _ _ _ (law.of_int_mono m n h) rate_pos)

    message_ms_nonneg : (n : ℕ) → nought numbers ≼ message_ms n
    message_ms_nonneg n =
        law.le_trans _ _ _
          (law.divide_nonneg _ _ (law.le_of_lt _ _ (law.of_decimal_pos _ (omega arith)))
            (law.of_decimal_pos _ (omega arith)))
          (law.le_plus _ _ (law.divide_nonneg _ _ (of_int_nonneg law n) rate_pos))

  -- A time for each message, over a count of messages.
  scaled :
      (count : ℕ) (a b : R)
      → a ≼ b
      → nought numbers ≼ a
      → NoSlower
          (ok (numbers.times a (numbers.of_int count)))
          (ok (numbers.times b (numbers.of_int count)))
  scaled count a b h k = record {
    fast_ms = numbers.times a (numbers.of_int count);
    slow_ms = numbers.times b (numbers.of_int count);
    fast_returns = refl;
    slow_returns = refl;
    no_slower = law.times_mono a b _ h (of_int_nonneg law count);
    nonneg = law.times_nonneg a _ k (of_int_nonneg law count);
  }

  module _ (s : RooflineStrategy R)
      (has_link : nought numbers ≺ s.interconnect_bandwidth_gb_s) where
    pub allreduce_overhead_ms-NoSlower :
        (fewer more batch : ℕ)
        → fewer ≤ more
        → NoSlower
            (allreduce_overhead_ms numbers s fewer batch)
            (allreduce_overhead_ms numbers s more batch)
    unfolding allreduce_overhead_ms calculate_allreduce_message_size
    allreduce_overhead_ms-NoSlower fewer more batch h =
        elim (Bool-cases (not s.include_tp_communication || leb s.calculator.tp_size 1)) [
          | inl e ↦ rw e (NoSlower-refl (nought numbers) (law.le_refl _))
          | inr e ↦
              let several = ||-eq-false (not s.include_tp_communication) _ e in
              let link = s.interconnect_bandwidth_gb_s in
              let size = bytes_per_element s.model in
              rw
                (
                  e,
                  calculate_allreduce_ms-ok link has_link (batch * fewer * s.model.hidden * size)
                      s.calculator.tp_size several,
                  calculate_allreduce_ms-ok link has_link (batch * more * s.model.hidden * size)
                      s.calculator.tp_size several,
                )
                (scaled (s.model.layers * 2) _ _
                  (ring_ms_mono link has_link _ _ s.calculator.tp_size several
                    (product_mono batch s.model.hidden size fewer more h))
                  (ring_ms_nonneg link has_link _ s.calculator.tp_size several))
        ]

    pub pipeline_overhead_ms-NoSlower :
        (fewer more batch : ℕ)
        → fewer ≤ more
        → NoSlower
            (pipeline_overhead_ms numbers s fewer batch)
            (pipeline_overhead_ms numbers s more batch)
    unfolding pipeline_overhead_ms calculate_activation_size calculate_pipeline_send_recv_ms
    pipeline_overhead_ms-NoSlower fewer more batch h =
        elim (Bool-cases (not s.include_pp_communication || leb s.pp_size 1)) [
          | inl e ↦ rw e (NoSlower-refl (nought numbers) (law.le_refl _))
          | inr e ↦
              let link = s.interconnect_bandwidth_gb_s in
              let size = bytes_per_element s.model in
              rw
                (
                  e,
                  ratio_pos law (numbers.of_int (batch * fewer * s.model.hidden * size)) _
                      (rate_pos link has_link),
                  ratio_pos law (numbers.of_int (batch * more * s.model.hidden * size)) _
                      (rate_pos link has_link),
                )
                (scaled (s.pp_size - 1) _ _
                  (message_ms_mono link has_link _ _
                    (product_mono batch s.model.hidden size fewer more h))
                  (message_ms_nonneg link has_link _))
        ]
