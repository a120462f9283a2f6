-- ===== src/Gpus.antt =====
-- GPUProfile of src/kvbench/core/gpu_profiles.py. The registered profiles are in Registry.
pub mod Registry
use llm_kv_passthrough.Prelude.{ℕ, Option, none, some, Text}
use llm_kv_passthrough.Numbers.{Decimal, Numbers, ratio}
use llm_kv_passthrough.Prelude.Result.{Result}

pub record GpuProfile : Type 0 where
  pub name : Text
  pub bf16_tflops : Decimal
  pub hbm_bandwidth_tb_s : Decimal
  pub hbm_capacity_gb : ℕ
  pub fp16_tflops : Option Decimal
  pub nvlink_bandwidth_gb_s : Option Decimal
  pub pcie_bandwidth_gb_s : Decimal
  pub tdp_watts : Option ℕ

-- __post_init__: fp16_tflops is bf16_tflops unless it is given.
decimal_or : Option Decimal → Decimal → Decimal
decimal_or none default = default
decimal_or (some d) default = d

unfoldable pub fp16_of : GpuProfile → Decimal
unfolding decimal_or
fp16_of gpu = decimal_or gpu.fp16_tflops gpu.bf16_tflops

module _ {R : Type 0} (numbers : Numbers R) where
  unfoldable pub hbm_bandwidth_gb_s : GpuProfile → R
  hbm_bandwidth_gb_s gpu =
      numbers.times (numbers.of_decimal gpu.hbm_bandwidth_tb_s) (numbers.of_int 1000)

  -- In operations for a byte; the bandwidth may be zero.
  pub arithmetic_intensity_threshold : GpuProfile → Result R
  unfolding ratio hbm_bandwidth_gb_s
  arithmetic_intensity_threshold gpu =
      ratio numbers (numbers.times (numbers.of_decimal gpu.bf16_tflops) (numbers.of_int 1000))
        (hbm_bandwidth_gb_s gpu)
