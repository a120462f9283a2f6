-- ===== src/Calibration.antt =====
-- CalibratedTimingStrategy of src/kvbench/timing/calibration.py: the scales of the anchors, the
-- tier that is chosen, and the scaled results; and load_anchors, over a record of the calls of
-- pathlib, yaml and json that it makes. Parameters are math.exp and math.log, and the anchors that
-- are built in.
pub mod Range
pub mod Prefix
mod Examples
use llm_kv_passthrough.Prelude.{
  ℕ, Bool, true, false, ◌&&◌, ◌||◌, Option, none, some, List, [], ◌∷◌, ◌++◌, map, Text, length,
  text_eq, codes, ltb, if◌then◌else◌,
}
use llm_kv_passthrough.Prelude.Result.{Result, ok, err, Error, key_error, value_error, ◌>>=◌}
use llm_kv_passthrough.Numbers.{Decimal, Numbers, nought}
use llm_kv_passthrough.Latency.Times.{named}
use llm_kv_passthrough.Timing.{TimingResult, timing_result}
use llm_kv_passthrough.Timing.Roofline
use llm_kv_passthrough.Timing.Roofline.{RooflineStrategy, create_roofline}

pub record TimingAnchor (R : Type 0) : Type 0 where
  pub model : Text
  pub gpu : Text
  pub isl : ℕ
  pub osl : ℕ
  pub ttft_ms : Option R
  pub tpot_ms : Option R
  pub tp_size : ℕ

pub record AnchorScale (R : Type 0) : Type 0 where
  pub anchor : TimingAnchor R
  pub prefill_scale : Option R
  pub decode_scale : Option R

pub data Kind : Type 0 where
  prefill decode : Kind

pub record Calibrated (R : Type 0) : Type 0 where
  pub scored : List (AnchorScale R)
  pub prefill_scale : R
  pub prefill_tier : Text
  pub decode_scale : R
  pub decode_tier : Text

pub record CalibratedStrategy (R : Type 0) : Type 0 where
  pub backbone : RooflineStrategy R
  pub scales : Calibrated R

-- math.exp and math.log
pub record Elementary (R : Type 0) : Type 0 where
  pub exp : R → R
  pub log : R → R

module _ {R : Type 0} (numbers : Numbers R) where
  -- sum(math.log(v) for v in values)
  sum_log : Elementary R → List R → R → R
  sum_log elementary [] total = total
  sum_log elementary (v ∷ values) total =
      sum_log elementary values (numbers.plus total (elementary.log v))

  -- _geomean of the values of a tier, which are not none.
  unfoldable pub geomean : Elementary R → List R → R
  unfolding sum_log
  geomean elementary values =
      elementary.exp (
        numbers.divide (sum_log elementary values (nought numbers))
          (numbers.of_int (length values)))

-- The libraries' calls: a path's suffix is in lower case, iterdir is sorted, a decoded file is none
-- when it is not a list, and construct is TimingAnchor(**entry), of values with the types that
-- TimingAnchor declares, which Python does not check. Each raises what it raises.
pub record AnchorFiles (R : Type 0) : Type 1 where
  pub Entry : Type 0
  pub is_dir : Text → Bool
  pub iterdir : Text → Result (List Text)
  pub suffix : Text → Text
  pub read_text : Text → Result Text
  pub safe_load : Text → Result (Option (List Entry))
  pub loads : Text → Result (Option (List Entry))
  pub construct : Entry → Result (TimingAnchor R)

module _ {R : Type 0} (files : AnchorFiles R) where
  construct_all : List files.Entry → Result (List (TimingAnchor R))
  construct_all [] = ok []
  construct_all (entry ∷ raw) = do
    anchor ← files.construct entry
    anchors ← construct_all raw
    ok (anchor ∷ anchors)

  -- _parse_anchor_entries
  parse_anchor_entries : Option (List files.Entry) → Result (List (TimingAnchor R))
  unfolding construct_all
  parse_anchor_entries none = err value_error
  parse_anchor_entries (some raw) = construct_all raw

  abbrev is_yaml : Text → Bool
  unfolding text_eq
  is_yaml suffix = text_eq suffix (codes ".yaml") || text_eq suffix (codes ".yml")

  -- _load_anchor_file
  load_anchor_file : Text → Result (List (TimingAnchor R))
  unfolding parse_anchor_entries text_eq
  load_anchor_file path = do
    text ← files.read_text path
    raw ← if is_yaml (files.suffix path) then files.safe_load text else files.loads text
    parse_anchor_entries raw

  load_each : List Text → Result (List (TimingAnchor R))
  unfolding load_anchor_file text_eq
  load_each [] = ok []
  load_each (path ∷ paths) =
      let rest = load_each paths in
      if is_yaml (files.suffix path) || text_eq (files.suffix path) (codes ".json")
      then (load_anchor_file path >>= λ anchors. rest >>= λ others. ok (anchors ++ others))
      else rest

  unfoldable pub load_anchors : Text → Result (List (TimingAnchor R))
  unfolding load_anchor_file load_each
  load_anchors path =
      if files.is_dir path then files.iterdir path >>= load_each else load_anchor_file path

  -- The pool: the built-in anchors, and those of anchors_file if it is given and not empty.
  unfoldable pub anchor_pool : List (TimingAnchor R) → Option Text → Result (List (TimingAnchor R))
  unfolding load_anchors
  anchor_pool builtin none = ok builtin
  anchor_pool builtin (some []) = ok builtin
  anchor_pool builtin (some (c ∷ path)) =
      load_anchors (c ∷ path) >>= λ anchors. ok (builtin ++ anchors)

module _ {R : Type 0} (numbers : Numbers R) where
  -- 1.0, MIN_SCALE, MAX_SCALE and the scale without an anchor, 1.0 / 0.7
  abbrev pub one : R
  one = numbers.of_decimal (record { digits = 1; places = 0 })

  abbrev pub min_scale : R
  min_scale = numbers.of_decimal (record { digits = 5; places = 2 })

  abbrev pub max_scale : R
  max_scale = numbers.of_decimal (record { digits = 500; places = 0 })

  abbrev pub default_scale : R
  default_scale = numbers.divide one (numbers.of_decimal (record { digits = 7; places = 1 }))

  -- Python's max(a, b) and min(a, b)
  abbrev pub py_max : R → R → R
  py_max a b = if numbers.lt a b then b else a

  abbrev pub py_min : R → R → R
  py_min a b = if numbers.lt b a then b else a

  pub clamp : R → R
  clamp scale = py_min (py_max scale min_scale) max_scale

  -- The scale of one measurement, none without one or without a positive prediction. Without a
  -- measurement nothing is predicted.
  pub scale_of : Option R → Result (TimingResult R) → Result (Option R)
  unfolding clamp
  scale_of none pred = ok none
  scale_of (some measured) pred = pred >>= λ p. ok (
      if numbers.lt (nought numbers) p.total_ms
      then some (clamp (numbers.divide measured p.total_ms))
      else none)

  -- `if pf is not None or df is not None: scored.append(...)`
  pub add_scored :
      TimingAnchor R → Option R → Option R → List (AnchorScale R) → List (AnchorScale R)
  add_scored a none none scored = scored
  add_scored a (some pf) df scored =
      record { anchor = a; prefill_scale = some pf; decode_scale = df } ∷ scored
  add_scored a none (some df) scored =
      record { anchor = a; prefill_scale = none; decode_scale = some df } ∷ scored

  -- One anchor before the rest: KeyError and ValueError of the constructor leave it out.
  pub score_anchor :
      TimingAnchor R
      → Result (RooflineStrategy R)
      → Result (List (AnchorScale R))
      → Result (List (AnchorScale R))
  unfolding scale_of add_scored Roofline.prefill_latency Roofline.decode_latency
  score_anchor a (ok backbone) rest = do
    pf ← scale_of a.ttft_ms (Roofline.prefill_latency numbers backbone a.isl 1 0)
    df ← scale_of a.tpot_ms (Roofline.decode_latency numbers backbone a.isl 1)
    scored ← rest
    ok (add_scored a pf df scored)
  score_anchor a (err key_error) rest = rest
  score_anchor a (err value_error) rest = rest
  score_anchor a (err other) rest = err other

  -- The strategy of an anchor, at efficiency 1.0.
  abbrev pub backbone_of : TimingAnchor R → Result (RooflineStrategy R)
  backbone_of a =
      create_roofline numbers (named a.gpu) (named a.model) a.tp_size 1 one (ltb 1 a.tp_size) false
        none

  -- _score_anchors
  pub score_anchors : List (TimingAnchor R) → Result (List (AnchorScale R))
  unfolding score_anchor create_roofline
  score_anchors [] = ok []
  score_anchors (a ∷ pool) = score_anchor a (backbone_of a) (score_anchors pool)

  abbrev pub usable : Kind → AnchorScale R → Option R
  usable prefill s = s.prefill_scale
  usable decode s = s.decode_scale

  pub keep : Bool → Option R → List R → List R
  keep false v values = values
  keep true none values = values
  keep true (some v) values = v ∷ values

  -- The usable scales of the anchors that pass a test.
  pub values_of : Kind → (TimingAnchor R → Bool) → List (AnchorScale R) → List R
  unfolding keep
  values_of kind test [] = []
  values_of kind test (s ∷ scored) =
      keep (test s.anchor) (usable kind s) (values_of kind test scored)

module _ {R : Type 0} (numbers : Numbers R) (elementary : Elementary R) where
  -- The first tier with values.
  pub first_tier : List (Text × List R) → R × Text
  unfolding geomean
  first_tier [] = (default_scale numbers, codes "no anchors (default efficiency 0.7)")
  first_tier ((name, []) ∷ tiers) = first_tier tiers
  first_tier ((name, v ∷ values) ∷ tiers) = (geomean numbers elementary (v ∷ values), name)

  abbrev pub tiers_of : Text → Text → Kind → List (AnchorScale R) → List (Text × List R)
  tiers_of model gpu kind scored =
      (
        codes "exact model+gpu anchor",
        values_of numbers kind (λ a. text_eq a.model model && text_eq a.gpu gpu) scored,
      )
      ∷ (codes "same-gpu anchors", values_of numbers kind (λ a. text_eq a.gpu gpu) scored)
      ∷ (codes "same-model anchors", values_of numbers kind (λ a. text_eq a.model model) scored)
      ∷ (codes "all anchors", values_of numbers kind (λ a. true) scored)
      ∷ []

  pub select_scale : Text → Text → Kind → List (AnchorScale R) → R × Text
  unfolding values_of first_tier text_eq
  select_scale model gpu kind scored = first_tier (tiers_of model gpu kind scored)

  -- The scales that __init__ chooses over a pool of anchors.
  pub calibrate : Text → Text → List (TimingAnchor R) → Result (Calibrated R)
  unfolding score_anchors select_scale
  calibrate model gpu pool = do
    scored ← score_anchors numbers pool
    ok (record {
      scored = scored;
      prefill_scale = (select_scale model gpu prefill scored).0;
      prefill_tier = (select_scale model gpu prefill scored).1;
      decode_scale = (select_scale model gpu decode scored).0;
      decode_tier = (select_scale model gpu decode scored).1;
    })

  -- __init__, over the names of a GPU and of a model.
  unfoldable pub create_calibrated :
      Text
      → Text
      → ℕ
      → ℕ
      → Bool
      → Bool
      → Option R
      → AnchorFiles R
      → List (TimingAnchor R)
      → Option Text
      → Result (CalibratedStrategy R)
  unfolding create_roofline calibrate anchor_pool
  create_calibrated gpu model tp_size pp_size include_tp include_pp nvlink files builtin file = do
    backbone ←
        create_roofline numbers (named gpu) (named model) tp_size pp_size (one numbers) include_tp
          include_pp nvlink
    pool ← anchor_pool files builtin file
    scales ← calibrate model gpu pool
    ok (record { backbone = backbone; scales = scales })

module _ {R : Type 0} (numbers : Numbers R) where
  pub set_entry : Text → R → List (Text × R) → List (Text × R)
  unfolding text_eq
  set_entry key v [] = (key, v) ∷ []
  set_entry key v ((k, w) ∷ entries) =
      let rest = set_entry key v entries in
      if text_eq k key then (k, v) ∷ entries else (k, w) ∷ rest

  -- _apply
  unfoldable pub apply : TimingResult R → R → Result (TimingResult R)
  unfolding set_entry timing_result
  apply result scale =
      timing_result numbers (numbers.times result.total_ms scale)
        (set_entry (codes "calibration_scale") scale
          (map (λ e. (e.0, numbers.times e.1 scale)) result.breakdown))
        result.is_compute_bound

  unfoldable pub prefill_latency : CalibratedStrategy R → ℕ → ℕ → ℕ → Result (TimingResult R)
  unfolding Roofline.prefill_latency apply
  prefill_latency s num_tokens batch_size context_tokens = do
    base ← Roofline.prefill_latency numbers s.backbone num_tokens batch_size context_tokens
    apply base s.scales.prefill_scale

  unfoldable pub decode_latency : CalibratedStrategy R → ℕ → ℕ → Result (TimingResult R)
  unfolding Roofline.decode_latency apply
  decode_latency s context_length batch_size = do
    base ← Roofline.decode_latency numbers s.backbone context_length batch_size
    apply base s.scales.decode_scale
