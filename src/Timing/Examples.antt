-- ===== src/Timing/Examples.antt =====
-- The three strategies over a registered GPU and a registered model, in fixed-point numbers.
use llm_kv_passthrough.Prelude.{
  ◌/◌, ◌+◌, ℕ, ◌≡◌, refl, Bool, true, false, none, List, [], ◌∷◌, some, ◌<◌, All, Text, codes,
  text_eq, find_named, le→leb, arith,
}
use llm_kv_passthrough.Prelude.Result.{ok, err, value_error, runtime_error, ok-injective}
use llm_kv_passthrough.Numbers.Fixed.{fixed, fixed-NumberLaws}
use llm_kv_passthrough.Gpus.Registry.{get_gpu_profile, gpu_h100_sxm}
use llm_kv_passthrough.Models.Registry.{get_model_profile, profile_llama_3_1_8b}
use llm_kv_passthrough.Latency.Times.{create_calculator}
use llm_kv_passthrough.Calibration.{Elementary, TimingAnchor, AnchorFiles, anchor_pool}
use llm_kv_passthrough.Timing.Contract.{IsMonotone}
use llm_kv_passthrough.Timing.Roofline.{create_roofline, interconnect}
use llm_kv_passthrough.Timing.Simple.{create_simple}
use llm_kv_passthrough.Timing.Factory.{
  StrategyConfig, Strategy, roofline_timing, create_timing_strategy, prefill_latency,
  decode_latency,
}
use llm_kv_passthrough.Timing.Strategies.{create_timing_strategy-IsMonotone}

-- Two functions in place of exp and log.
abbrev pub elementary : Elementary ℕ
elementary = record { exp = λ a. 500 + a; log = λ a. a / 2 }

abbrev pub config : Bool → Text → ℕ → StrategyConfig ℕ
config simple_mode gpu prefill_ms = record {
  calibrated = false;
  simple_mode = simple_mode;
  prefill_ms_per_token = prefill_ms;
  decode_ms_per_token = 1000;
  include_tp_communication = true;
  include_pp_communication = true;
  pp_size = 2;
  nvlink_bandwidth_gb_s = none;
  gpu_profile = gpu;
  tp_size = 4;
  efficiency_factor = 700;
  model_profile = codes "llama-3.1-8b";
  anchors_file = none;
}

-- A file system without files.
abbrev pub no_anchors : AnchorFiles ℕ
no_anchors = record {
  Entry = ℕ;
  is_dir = λ path. false;
  iterdir = λ path. err runtime_error;
  suffix = λ path. [];
  read_text = λ path. err runtime_error;
  safe_load = λ text. ok none;
  loads = λ text. ok none;
  construct = λ entry. err value_error;
}

-- No anchor is built in.
pub no_pool :
    {mode : Bool}
    → mode ≡ true
    → (pool : List (TimingAnchor ℕ)) → anchor_pool no_anchors [] none ≡ ok pool
    → All (λ a. 0 < a.tp_size) pool
unfolding anchor_pool
no_pool mode [] e = tt
no_pool mode (a ∷ pool) e = let same : [] ≡ a ∷ pool = ok-injective e in cc

abbrev pub h100 : Text
h100 = codes "H100_SXM"

abbrev pub over_h100 : Strategy ℕ
over_h100 = roofline_timing (record {
  calculator = record {
    gpu = gpu_h100_sxm;
    model = profile_llama_3_1_8b;
    tp_size = 4;
    efficiency = 700;
  };
  model = profile_llama_3_1_8b;
  pp_size = 2;
  include_tp_communication = true;
  include_pp_communication = true;
  interconnect_bandwidth_gb_s = 900000;
})

pub made :
    create_timing_strategy fixed elementary no_anchors [] (config false h100 100) ≡ ok over_h100
unfolding create_timing_strategy create_roofline create_calculator get_gpu_profile get_model_profile
    find_named text_eq interconnect
made = refl

create_timing_strategy-IsMonotone_example :
    IsMonotone (prefill_latency fixed over_h100) (decode_latency fixed over_h100)
create_timing_strategy-IsMonotone_example =
    create_timing_strategy-IsMonotone fixed-NumberLaws elementary no_anchors []
      (config false h100 100) over_h100 refl (λ a. le→leb 0 (500 + a) (omega arith)) no_pool
      (omega arith) refl tt made

-- Simple mode with no time for a token.
refused :
    create_timing_strategy fixed elementary no_anchors [] (config true h100 0) ≡ err value_error
unfolding create_timing_strategy create_simple
refused = refl

-- Calibrated mode over a file of anchors that is not there.
abbrev unread : StrategyConfig ℕ
unread = record (config false h100 100) { calibrated = true; anchors_file = some (codes "a.yaml") }
