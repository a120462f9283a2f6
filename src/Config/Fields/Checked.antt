-- ===== src/Config/Fields/Checked.antt =====
-- A configuration that was validated describes a timing strategy.
use llm_kv_passthrough.Prelude.{◌<◌, ◌≡◌}
use llm_kv_passthrough.Prelude.Result.{Result, ok}
use llm_kv_passthrough.Numbers.{Numbers, nought, ◌≺◌}
use llm_kv_passthrough.Gpus.{GpuProfile}
use llm_kv_passthrough.Gpus.Registry.{get_gpu_profile}
use llm_kv_passthrough.Models.{ModelProfile}
use llm_kv_passthrough.Models.Registry.{get_model_profile}
use llm_kv_passthrough.Timing.Prefix.{IsPositive}
use llm_kv_passthrough.Timing.Factory.{StrategyConfig}

-- What the check of the fields says of those that describe the strategy.
record IsUsable {R : Type 0} ⦃numbers : Numbers R⦄ (c : StrategyConfig R) : Type 0 where
  gpu : GpuProfile
  gpu_found : get_gpu_profile c.gpu_profile ≡ ok gpu
  model : ModelProfile
  model_found : get_model_profile c.model_profile ≡ ok model
  has_gpu : 0 < c.tp_size
  efficient : nought numbers ≺ c.efficiency_factor
  prefill_pos : nought numbers ≺ c.prefill_ms_per_token
  decode_pos : nought numbers ≺ c.decode_ms_per_token
  bandwidth_pos : IsPositive c.nvlink_bandwidth_gb_s
