-- ===== src/Gpus/Registry.antt =====
-- GPU_PROFILES of src/kvbench/core/gpu_profiles.py and its lookups.
use llm_kv_passthrough.Prelude.{
  ℕ, Option, none, some, List, [], ◌∷◌, map, Text, codes, find_named, sort_texts, ltb, Bool, true,
  ◌&&◌, ◌≡◌, refl, find_named-passes,
}
use llm_kv_passthrough.Prelude.Result.{Result, ok}
use llm_kv_passthrough.Numbers.{Decimal}
use llm_kv_passthrough.Gpus.{GpuProfile}

-- A literal of the source, by its digits and how many stand after the point.
abbrev literal : ℕ → ℕ → Decimal
literal digits places = record { digits = digits; places = places }

abbrev gpu_b200_sxm : GpuProfile
gpu_b200_sxm = record {
  name = codes "NVIDIA B200 SXM (Blackwell)";
  bf16_tflops = literal 2250 0;
  hbm_bandwidth_tb_s = literal 8 0;
  hbm_capacity_gb = 180;
  fp16_tflops = none;
  nvlink_bandwidth_gb_s = some (literal 1800 0);
  pcie_bandwidth_gb_s = literal 64 0;
  tdp_watts = some 1000;
}

abbrev gpu_mi355x_oam : GpuProfile
gpu_mi355x_oam = record {
  name = codes "AMD Instinct MI355X (CDNA 4)";
  bf16_tflops = literal 2500 0;
  hbm_bandwidth_tb_s = literal 8 0;
  hbm_capacity_gb = 288;
  fp16_tflops = none;
  nvlink_bandwidth_gb_s = some (literal 1075 0);
  pcie_bandwidth_gb_s = literal 64 0;
  tdp_watts = some 1400;
}

abbrev gpu_rubin_vr200 : GpuProfile
gpu_rubin_vr200 = record {
  name = codes "NVIDIA Rubin VR200 (projected, per package)";
  bf16_tflops = literal 8300 0;
  hbm_bandwidth_tb_s = literal 20 0;
  hbm_capacity_gb = 288;
  fp16_tflops = none;
  nvlink_bandwidth_gb_s = some (literal 3600 0);
  pcie_bandwidth_gb_s = literal 64 0;
  tdp_watts = some 1800;
}

abbrev gpu_rubin_ultra : GpuProfile
gpu_rubin_ultra = record {
  name = codes "NVIDIA Rubin Ultra (projected, per 4-die package, NVL576/Kyber)";
  bf16_tflops = literal 17400 0;
  hbm_bandwidth_tb_s = literal 32 0;
  hbm_capacity_gb = 1024;
  fp16_tflops = none;
  nvlink_bandwidth_gb_s = some (literal 10400 0);
  pcie_bandwidth_gb_s = literal 64 0;
  tdp_watts = some 3600;
}

abbrev gpu_mi455x_helios : GpuProfile
gpu_mi455x_helios = record {
  name = codes "AMD Instinct MI455X / Helios rack (projected, CDNA 5)";
  bf16_tflops = literal 10000 0;
  hbm_bandwidth_tb_s = literal 233 1;
  hbm_capacity_gb = 432;
  fp16_tflops = none;
  nvlink_bandwidth_gb_s = some (literal 3600 0);
  pcie_bandwidth_gb_s = literal 64 0;
  tdp_watts = some 2200;
}

abbrev gpu_b300_sxm : GpuProfile
gpu_b300_sxm = record {
  name = codes "NVIDIA B300 SXM (Blackwell Ultra)";
  bf16_tflops = literal 2250 0;
  hbm_bandwidth_tb_s = literal 8 0;
  hbm_capacity_gb = 288;
  fp16_tflops = none;
  nvlink_bandwidth_gb_s = some (literal 1800 0);
  pcie_bandwidth_gb_s = literal 64 0;
  tdp_watts = some 1400;
}

abbrev gpu_gb10 : GpuProfile
gpu_gb10 = record {
  name = codes "NVIDIA GB10 (DGX Spark)";
  bf16_tflops = literal 125 0;
  hbm_bandwidth_tb_s = literal 273 3;
  hbm_capacity_gb = 128;
  fp16_tflops = none;
  nvlink_bandwidth_gb_s = none;
  pcie_bandwidth_gb_s = literal 64 0;
  tdp_watts = some 140;
}

abbrev gpu_strix_halo_igpu : GpuProfile
gpu_strix_halo_igpu = record {
  name = codes "AMD Radeon 8060S (Strix Halo iGPU, gfx1151)";
  bf16_tflops = literal 30 0;
  hbm_bandwidth_tb_s = literal 256 3;
  hbm_capacity_gb = 128;
  fp16_tflops = none;
  nvlink_bandwidth_gb_s = none;
  pcie_bandwidth_gb_s = literal 64 0;
  tdp_watts = some 120;
}

abbrev gpu_strix_halo_cpu : GpuProfile
gpu_strix_halo_cpu = record {
  name = codes "AMD Ryzen AI MAX+ 395 (Strix Halo) - CPU inference";
  bf16_tflops = literal 5 0;
  hbm_bandwidth_tb_s = literal 256 3;
  hbm_capacity_gb = 128;
  fp16_tflops = none;
  nvlink_bandwidth_gb_s = none;
  pcie_bandwidth_gb_s = literal 64 0;
  tdp_watts = some 120;
}

abbrev pub gpu_h100_sxm : GpuProfile
gpu_h100_sxm = record {
  name = codes "NVIDIA H100 SXM";
  bf16_tflops = literal 9895 1;
  hbm_bandwidth_tb_s = literal 335 2;
  hbm_capacity_gb = 80;
  fp16_tflops = none;
  nvlink_bandwidth_gb_s = some (literal 900 0);
  pcie_bandwidth_gb_s = literal 64 0;
  tdp_watts = some 700;
}

abbrev gpu_h100_pcie : GpuProfile
gpu_h100_pcie = record {
  name = codes "NVIDIA H100 PCIe";
  bf16_tflops = literal 7565 1;
  hbm_bandwidth_tb_s = literal 2 0;
  hbm_capacity_gb = 80;
  fp16_tflops = none;
  nvlink_bandwidth_gb_s = some (literal 600 0);
  pcie_bandwidth_gb_s = literal 128 0;
  tdp_watts = some 350;
}

abbrev gpu_h200_sxm : GpuProfile
gpu_h200_sxm = record {
  name = codes "NVIDIA H200 SXM";
  bf16_tflops = literal 9895 1;
  hbm_bandwidth_tb_s = literal 48 1;
  hbm_capacity_gb = 141;
  fp16_tflops = none;
  nvlink_bandwidth_gb_s = some (literal 900 0);
  pcie_bandwidth_gb_s = literal 64 0;
  tdp_watts = some 700;
}

abbrev gpu_a100_sxm : GpuProfile
gpu_a100_sxm = record {
  name = codes "NVIDIA A100 SXM";
  bf16_tflops = literal 312 0;
  hbm_bandwidth_tb_s = literal 2 0;
  hbm_capacity_gb = 80;
  fp16_tflops = none;
  nvlink_bandwidth_gb_s = some (literal 600 0);
  pcie_bandwidth_gb_s = literal 64 0;
  tdp_watts = some 400;
}

abbrev gpu_a100_pcie : GpuProfile
gpu_a100_pcie = record {
  name = codes "NVIDIA A100 PCIe";
  bf16_tflops = literal 312 0;
  hbm_bandwidth_tb_s = literal 2 0;
  hbm_capacity_gb = 80;
  fp16_tflops = none;
  nvlink_bandwidth_gb_s = none;
  pcie_bandwidth_gb_s = literal 64 0;
  tdp_watts = some 300;
}

abbrev gpu_l4 : GpuProfile
gpu_l4 = record {
  name = codes "NVIDIA L4";
  bf16_tflops = literal 605 1;
  hbm_bandwidth_tb_s = literal 3 1;
  hbm_capacity_gb = 24;
  fp16_tflops = none;
  nvlink_bandwidth_gb_s = none;
  pcie_bandwidth_gb_s = literal 64 0;
  tdp_watts = some 72;
}

abbrev gpu_l40s : GpuProfile
gpu_l40s = record {
  name = codes "NVIDIA L40S";
  bf16_tflops = literal 18105 2;
  hbm_bandwidth_tb_s = literal 864 3;
  hbm_capacity_gb = 48;
  fp16_tflops = none;
  nvlink_bandwidth_gb_s = none;
  pcie_bandwidth_gb_s = literal 64 0;
  tdp_watts = some 350;
}

-- GPU_PROFILES
abbrev pub gpu_profiles : List (Text × GpuProfile)
gpu_profiles =
    (codes "B200_SXM", gpu_b200_sxm)
    ∷ (codes "MI355X_OAM", gpu_mi355x_oam)
    ∷ (codes "RUBIN_VR200", gpu_rubin_vr200)
    ∷ (codes "RUBIN_ULTRA", gpu_rubin_ultra)
    ∷ (codes "MI455X_HELIOS", gpu_mi455x_helios)
    ∷ (codes "B300_SXM", gpu_b300_sxm)
    ∷ (codes "GB10", gpu_gb10)
    ∷ (codes "STRIX_HALO_IGPU", gpu_strix_halo_igpu)
    ∷ (codes "STRIX_HALO_CPU", gpu_strix_halo_cpu)
    ∷ (codes "H100_SXM", gpu_h100_sxm)
    ∷ (codes "H100_PCIe", gpu_h100_pcie)
    ∷ (codes "H200_SXM", gpu_h200_sxm)
    ∷ (codes "A100_SXM", gpu_a100_sxm)
    ∷ (codes "A100_PCIe", gpu_a100_pcie)
    ∷ (codes "L4", gpu_l4)
    ∷ (codes "L40S", gpu_l40s)
    ∷ []

unfoldable pub get_gpu_profile : Text → Result GpuProfile
unfolding find_named
get_gpu_profile name = find_named name gpu_profiles

pub list_gpu_profiles : List Text
unfolding sort_texts
list_gpu_profiles = sort_texts (map (λ e. e.0) gpu_profiles)

-- A link of a positive bandwidth, where the profile has one.
abbrev pub has_link : Option Decimal → Bool
has_link none = true
has_link (some bandwidth) = ltb 0 bandwidth.digits

-- A positive peak and a positive memory bandwidth.
abbrev pub has_power : GpuProfile → Bool
has_power gpu = ltb 0 gpu.bf16_tflops.digits && ltb 0 gpu.hbm_bandwidth_tb_s.digits

pub get_gpu_profile-has_power :
    (name : Text) {gpu : GpuProfile} → get_gpu_profile name ≡ ok gpu → has_power gpu ≡ true
unfolding get_gpu_profile
get_gpu_profile-has_power name found = find_named-passes has_power name gpu_profiles refl found

pub get_gpu_profile-has_link :
    (name : Text) {gpu : GpuProfile}
    → get_gpu_profile name ≡ ok gpu
    → has_link gpu.nvlink_bandwidth_gb_s ≡ true
unfolding get_gpu_profile
get_gpu_profile-has_link name found =
    find_named-passes (λ gpu. has_link gpu.nvlink_bandwidth_gb_s) name gpu_profiles refl found
