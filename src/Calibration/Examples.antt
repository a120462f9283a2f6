-- ===== src/Calibration/Examples.antt =====
-- A calibration over three anchors, one of an unknown GPU, in fixed-point numbers.
use llm_kv_passthrough.Prelude.{
  ◌/◌, ◌+◌, ℕ, ◌≡◌, refl, none, some, List, [], ◌∷◌, ◌++◌, Text, text_eq, codes, if◌then◌else◌,
}
use llm_kv_passthrough.Prelude.Result.{ok, err, value_error}
use llm_kv_passthrough.Calibration.{
  Elementary, TimingAnchor, AnchorFiles, anchor_pool, load_anchors,
}

-- Two functions in place of exp and log.
abbrev elementary : Elementary ℕ
elementary = record { exp = λ a. 500 + a; log = λ a. a / 2 }

abbrev anchor : Text → Text → ℕ → TimingAnchor ℕ
anchor model gpu measured = record {
  model = model;
  gpu = gpu;
  isl = 10;
  osl = 10;
  ttft_ms = some measured;
  tpot_ms = none;
  tp_size = 1;
}

abbrev h100 : Text
h100 = codes "H100_SXM"

abbrev llama : Text
llama = codes "llama-3.1-8b"

abbrev pool : List (TimingAnchor ℕ)
pool =
    anchor llama h100 50000
    ∷ anchor (codes "mistral-7b") h100 9000
    ∷ anchor llama (codes "unknown") 70000
    ∷ []

-- A directory "d" with the YAML file "a", the text file "b" and the JSON file "c", which is no list.
abbrev suffix_of : Text → Text
unfolding text_eq
suffix_of path =
    if text_eq path (codes "a")
    then codes ".yaml"
    else if text_eq path (codes "c")
    then codes ".json"
    else codes ".txt"

abbrev directory : List Text → AnchorFiles ℕ
unfolding text_eq
directory names = record {
  Entry = ℕ;
  is_dir = λ path. text_eq path (codes "d");
  iterdir = λ path. ok names;
  suffix = suffix_of;
  read_text = λ path. ok path;
  safe_load = λ text. ok (some (7 ∷ 8 ∷ []));
  loads = λ text. ok none;
  construct = λ measured. ok (anchor llama h100 measured);
}

loaded :
    anchor_pool (directory (codes "a" ∷ codes "b" ∷ [])) pool (some (codes "d"))
    ≡ ok (pool ++ anchor llama h100 7 ∷ anchor llama h100 8 ∷ [])
unfolding anchor_pool load_anchors text_eq
loaded = refl

malformed : anchor_pool (directory []) pool (some (codes "c")) ≡ err value_error
unfolding anchor_pool load_anchors text_eq
malformed = refl
