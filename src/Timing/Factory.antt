-- ===== src/Timing/Factory.antt =====
-- create_timing_strategy of src/kvbench/timing/factory.py, and the calls of the strategy that it
-- chooses. Parameters are the anchors that are built in, and the calls that read
-- timing.anchors_file.
use llm_kv_passthrough.Prelude.{ℕ, Bool, Option, List, Text, if◌then◌else◌}
use llm_kv_passthrough.Prelude.Result.{Result, ok, ◌>>=◌}
use llm_kv_passthrough.Numbers.{Numbers}
use llm_kv_passthrough.Latency.Times.{named}
use llm_kv_passthrough.Timing.{TimingResult}
use llm_kv_passthrough.Timing.Roofline
use llm_kv_passthrough.Timing.Roofline.{RooflineStrategy, create_roofline}
use llm_kv_passthrough.Timing.Simple
use llm_kv_passthrough.Timing.Simple.{SimpleStrategy, create_simple}
use llm_kv_passthrough.Calibration
use llm_kv_passthrough.Calibration.{
  Elementary, TimingAnchor, AnchorFiles, CalibratedStrategy, create_calibrated,
}

-- What is read of a KVBenchConfig.
pub record StrategyConfig (R : Type 0) : Type 0 where
  pub calibrated : Bool
  pub simple_mode : Bool
  pub prefill_ms_per_token : R
  pub decode_ms_per_token : R
  pub include_tp_communication : Bool
  pub include_pp_communication : Bool
  pub pp_size : ℕ
  pub nvlink_bandwidth_gb_s : Option R
  pub gpu_profile : Text
  pub tp_size : ℕ
  pub efficiency_factor : R
  pub model_profile : Text
  pub anchors_file : Option Text

pub data Strategy (R : Type 0) : Type 0 where
  calibrated_timing : CalibratedStrategy R → Strategy R
  simple_timing : SimpleStrategy R → Strategy R
  roofline_timing : RooflineStrategy R → Strategy R

module _ {R : Type 0} (numbers : Numbers R) where
  unfoldable pub create_timing_strategy :
      Elementary R → AnchorFiles R → List (TimingAnchor R) → StrategyConfig R → Result (Strategy R)
  unfolding create_calibrated create_simple create_roofline
  create_timing_strategy elementary files builtin config =
      let calibrated =
        create_calibrated numbers elementary config.gpu_profile config.model_profile config.tp_size
          config.pp_size config.include_tp_communication config.include_pp_communication
          config.nvlink_bandwidth_gb_s files builtin config.anchors_file
        >>= λ s. ok (calibrated_timing s) in
      let simple =
        create_simple numbers config.prefill_ms_per_token config.decode_ms_per_token >>= λ s.
        ok (simple_timing s) in
      let roofline =
        create_roofline numbers (named config.gpu_profile) (named config.model_profile)
          config.tp_size config.pp_size config.efficiency_factor config.include_tp_communication
          config.include_pp_communication config.nvlink_bandwidth_gb_s
        >>= λ s. ok (roofline_timing s) in
      if config.calibrated then calibrated else (if config.simple_mode then simple else roofline)

  unfoldable pub prefill_latency : Strategy R → ℕ → ℕ → ℕ → Result (TimingResult R)
  unfolding Calibration.prefill_latency Simple.prefill_latency Roofline.prefill_latency
  prefill_latency (calibrated_timing s) n batch context =
      Calibration.prefill_latency numbers s n batch context
  prefill_latency (simple_timing s) n batch context =
      Simple.prefill_latency numbers s n batch context
  prefill_latency (roofline_timing s) n batch context =
      Roofline.prefill_latency numbers s n batch context

  unfoldable pub decode_latency : Strategy R → ℕ → ℕ → Result (TimingResult R)
  unfolding Calibration.decode_latency Simple.decode_latency Roofline.decode_latency
  decode_latency (calibrated_timing s) context batch =
      Calibration.decode_latency numbers s context batch
  decode_latency (simple_timing s) context batch = Simple.decode_latency numbers s context batch
  decode_latency (roofline_timing s) context batch = Roofline.decode_latency numbers s context batch
