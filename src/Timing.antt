-- ===== src/Timing.antt =====
-- The timing strategies of src/kvbench/timing: the check of a TimingResult (strategy.py) and the
-- times of communication between GPUs (communication.py). The strategies are in Roofline, Simple
-- and Factory.
pub mod Roofline
pub mod Simple
pub mod Factory
pub mod Overhead
pub mod Contract
pub mod Prefix
pub mod Strategies
pub mod Examples
use llm_kv_passthrough.Prelude.{ℕ, zero, suc, ◌+◌, ◌-◌, ◌*◌, Bool, List, Text, leb, if◌then◌else◌}
use llm_kv_passthrough.Prelude.Result.{Result, ok, err, value_error, ◌>>=◌}
use llm_kv_passthrough.Numbers.{Decimal, Numbers, nought, power_of_ten, ratio}

pub record TimingResult (R : Type 0) : Type 0 where
  pub total_ms : R
  pub breakdown : List (Text × R)
  pub is_compute_bound : Bool

unfoldable pub calculate_allreduce_message_size : ℕ → ℕ → ℕ → ℕ
calculate_allreduce_message_size batch_size hidden_size dtype_bytes =
    batch_size * hidden_size * dtype_bytes

unfoldable pub calculate_activation_size : ℕ → ℕ → ℕ → ℕ → ℕ
calculate_activation_size batch_size sequence_length hidden_size dtype_bytes =
    batch_size * sequence_length * hidden_size * dtype_bytes

module _ {R : Type 0} (numbers : Numbers R) where
  -- TimingResult(...), with the ValueError of __post_init__
  unfoldable pub timing_result : R → List (Text × R) → Bool → Result (TimingResult R)
  timing_result total_ms breakdown is_compute_bound =
      if numbers.lt total_ms (nought numbers)
      then err value_error
      else ok (record {
        total_ms = total_ms;
        breakdown = breakdown;
        is_compute_bound = is_compute_bound;
      })

  -- A ring of tp_size GPUs.
  unfoldable pub calculate_allreduce_ms : ℕ → ℕ → R → Result R
  unfolding ratio
  calculate_allreduce_ms message_size_bytes tp_size nvlink_bandwidth_gb_s =
      if leb tp_size 1
      then ok (nought numbers)
      else ratio numbers
          (numbers.times
            (numbers.divide (numbers.of_int (2 * (tp_size - 1))) (numbers.of_int tp_size))
            (numbers.of_int message_size_bytes))
          (numbers.times nvlink_bandwidth_gb_s (power_of_ten numbers 6))

  unfoldable pub calculate_pipeline_send_recv_ms : ℕ → R → R → Result R
  unfolding ratio
  calculate_pipeline_send_recv_ms activation_size_bytes bandwidth_gb_s latency_overhead_us = do
    transfer_ms ←
        ratio numbers (numbers.of_int activation_size_bytes)
          (numbers.times bandwidth_gb_s (power_of_ten numbers 6))
    ok (numbers.plus (numbers.divide latency_overhead_us (power_of_ten numbers 3)) transfer_ms)
