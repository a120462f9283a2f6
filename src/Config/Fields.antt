-- ===== src/Config/Fields.antt =====
-- The fields of KVBenchConfig in src/kvbench/core/config.py with their ranges and validators. That
-- pydantic raises ValidationError, a ValueError, exactly when a field is out of its range or a
-- validator raises is its documented behaviour. An int below zero is out of every range here, so
-- the ints are natural numbers; whether a path exists is an argument.

pub mod Checked
mod Examples
use llm_kv_passthrough.Prelude.{
  ℕ, Bool, true, false, ◌&&◌, ◌||◌, Option, none, some, List, [], ◌∷◌, Text, text_eq, codes, leb,
  if◌then◌else◌,
}
use llm_kv_passthrough.Prelude.Result.{Result, ok, err, value_error}
use llm_kv_passthrough.Numbers.{Decimal, Numbers}
use llm_kv_passthrough.Gpus.Registry.{get_gpu_profile}
use llm_kv_passthrough.Models.Registry.{get_model_profile}
use llm_kv_passthrough.Timing.Factory.{StrategyConfig}

pub record KvStackConfig : Type 0 where
  pub stack : Text
  pub lmcache_config_file : Option Text
  pub trace_file : Option Text
  pub random_fill : Bool
  pub random_pool_mb : ℕ

pub record GpuEmulationConfig (R : Type 0) : Type 0 where
  pub gpu_profile : Text
  pub efficiency_factor : R
  pub tp_size : ℕ

pub record TimingConfig (R : Type 0) : Type 0 where
  pub simple_mode : Bool
  pub prefill_ms_per_token : R
  pub decode_ms_per_token : R
  pub include_tp_communication : Bool
  pub include_pp_communication : Bool
  pub pp_size : ℕ
  pub nvlink_bandwidth_gb_s : Option R
  pub calibrated : Bool
  pub anchors_file : Option Text

pub record ServerConfig : Type 0 where
  pub host : Text
  pub port : ℕ
  pub server_type : Text
  pub model_profile : Text
  pub workers : ℕ
  pub log_level : Text

pub record DistributedConfig (R : Type 0) : Type 0 where
  pub prefill_endpoints : List Text
  pub decode_endpoints : List Text
  pub registry_url : Option Text
  pub health_check_interval : R

pub record MetricsConfig : Type 0 where
  pub enabled : Bool
  pub prometheus_port : ℕ
  pub include_histograms : Bool

pub record KvBenchConfig (R : Type 0) : Type 0 where
  pub instance_id : Text
  pub kv : KvStackConfig
  pub gpu : GpuEmulationConfig R
  pub timing : TimingConfig R
  pub server : ServerConfig
  pub distributed : DistributedConfig R
  pub metrics : MetricsConfig

-- A Literal[...]
pub is_one_of : Text → List Text → Bool
unfolding text_eq
is_one_of v [] = false
is_one_of v (name ∷ names) = text_eq v name || is_one_of v names

-- Field(ge=low, le=high)
abbrev pub in_range : ℕ → ℕ → ℕ → Bool
in_range low high v = leb low v && leb v high

-- A key of a registry: its lookup does not raise.
abbrev pub returns : {A : Type 0} → Result A → Bool
returns (ok a) = true
returns (err raised) = false

abbrev pub all_hold : List Bool → Bool
all_hold [] = true
all_hold (b ∷ bs) = b && all_hold bs

abbrev is_there : (Text → Bool) → Option Text → Bool
is_there exists none = true
is_there exists (some path) = exists path

abbrev pub kv_tests : (Text → Bool) → KvStackConfig → List Bool
kv_tests exists c =
    is_one_of c.stack (codes "lmcache" ∷ codes "kvbm" ∷ [])
    ∷ in_range 16 4096 c.random_pool_mb
    ∷ is_there exists c.lmcache_config_file
    ∷ []

abbrev pub server_tests : ServerConfig → List Bool
server_tests c =
    returns (get_model_profile c.model_profile)
    ∷ in_range 1024 65535 c.port
    ∷ is_one_of c.server_type
        (codes "prefill" ∷ codes "decode" ∷ codes "combined" ∷ codes "proxy" ∷ [])
    ∷ in_range 1 32 c.workers
    ∷ is_one_of c.log_level (codes "debug" ∷ codes "info" ∷ codes "warning" ∷ codes "error" ∷ [])
    ∷ []

unfoldable pub check_metrics : MetricsConfig → Bool
check_metrics c = in_range 1024 65535 c.prometheus_port

abbrev pub literal : ℕ → ℕ → Decimal
literal digits places = record { digits = digits; places = places }

module _ {R : Type 0} (numbers : Numbers R) where
  -- Field(ge=low, le=high) of a float
  abbrev pub between : Decimal → Decimal → R → Bool
  between low high v =
      numbers.le (numbers.of_decimal low) v && numbers.le v (numbers.of_decimal high)

  abbrev pub gpu_tests : GpuEmulationConfig R → List Bool
  gpu_tests c =
      returns (get_gpu_profile c.gpu_profile)
      ∷ between (literal 1 1) (literal 1 0) c.efficiency_factor
      ∷ in_range 1 16 c.tp_size
      ∷ []

  abbrev pub check_bandwidth : Option R → Bool
  check_bandwidth none = true
  check_bandwidth (some v) = between (literal 1 0) (literal 2000 0) v

  abbrev pub timing_tests : TimingConfig R → List Bool
  timing_tests c =
      between (literal 1 3) (literal 100 0) c.prefill_ms_per_token
      ∷ between (literal 1 3) (literal 100 0) c.decode_ms_per_token
      ∷ in_range 1 16 c.pp_size
      ∷ check_bandwidth c.nvlink_bandwidth_gb_s
      ∷ []

  unfoldable pub check_distributed : DistributedConfig R → Bool
  check_distributed c = between (literal 1 0) (literal 300 0) c.health_check_interval

  -- KVBenchConfig.model_validate, once the values have their types.
  unfoldable pub validate : (Text → Bool) → KvBenchConfig R → Result (KvBenchConfig R)
  unfolding is_one_of get_gpu_profile get_model_profile check_distributed check_metrics
  validate exists c =
      if all_hold (
        all_hold (gpu_tests c.gpu)
        ∷ all_hold (timing_tests c.timing)
        ∷ all_hold (server_tests c.server)
        ∷ all_hold (kv_tests exists c.kv)
        ∷ check_distributed c.distributed
        ∷ check_metrics c.metrics
        ∷ [])
      then ok c
      else err value_error

-- What create_timing_strategy reads.
abbrev pub strategy_config : {R : Type 0} → KvBenchConfig R → StrategyConfig R
strategy_config c = record {
  calibrated = c.timing.calibrated;
  simple_mode = c.timing.simple_mode;
  prefill_ms_per_token = c.timing.prefill_ms_per_token;
  decode_ms_per_token = c.timing.decode_ms_per_token;
  include_tp_communication = c.timing.include_tp_communication;
  include_pp_communication = c.timing.include_pp_communication;
  pp_size = c.timing.pp_size;
  nvlink_bandwidth_gb_s = c.timing.nvlink_bandwidth_gb_s;
  gpu_profile = c.gpu.gpu_profile;
  tp_size = c.gpu.tp_size;
  efficiency_factor = c.gpu.efficiency_factor;
  model_profile = c.server.model_profile;
  anchors_file = c.timing.anchors_file;
}

-- KVBenchConfig() with the default of every field.
unfoldable pub default_config : {R : Type 0} → Numbers R → KvBenchConfig R
default_config numbers = record {
  instance_id = codes "kvbench-0";
  kv = record {
    stack = codes "lmcache";
    lmcache_config_file = none;
    trace_file = none;
    random_fill = true;
    random_pool_mb = 256;
  };
  gpu = record {
    gpu_profile = codes "H100_SXM";
    efficiency_factor = numbers.of_decimal (literal 7 1);
    tp_size = 1;
  };
  timing = record {
    simple_mode = false;
    prefill_ms_per_token = numbers.of_decimal (literal 1 1);
    decode_ms_per_token = numbers.of_decimal (literal 1 0);
    include_tp_communication = true;
    include_pp_communication = true;
    pp_size = 1;
    nvlink_bandwidth_gb_s = none;
    calibrated = false;
    anchors_file = none;
  };
  server = record {
    host = codes "0.0.0.0";
    port = 8000;
    server_type = codes "combined";
    model_profile = codes "llama-3.1-8b";
    workers = 1;
    log_level = codes "info";
  };
  distributed = record {
    prefill_endpoints = [];
    decode_endpoints = [];
    registry_url = none;
    health_check_interval = numbers.of_decimal (literal 10 0);
  };
  metrics = record { enabled = true; prometheus_port = 9090; include_histograms = true };
}
