-- ===== src/Config/Fields/Examples.antt =====
-- The default configuration, and one that is refused, in fixed-point numbers.
use llm_kv_passthrough.Prelude.{ℕ, ◌≡◌, refl, false, Bool, Text, codes, text_eq, find_named}
use llm_kv_passthrough.Prelude.Result.{err, value_error}
use llm_kv_passthrough.Numbers.Fixed.{fixed}
use llm_kv_passthrough.Config.Fields.{KvBenchConfig, validate, default_config}

abbrev no_files : Text → Bool
no_files path = false

abbrev unknown : KvBenchConfig ℕ
unknown = record (default_config fixed) {
  gpu = record ((default_config fixed).gpu) { gpu_profile = codes "H100" };
}

refused : validate fixed no_files unknown ≡ err value_error
unfolding validate default_config find_named text_eq
refused = refl
