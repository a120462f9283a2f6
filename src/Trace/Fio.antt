-- ===== src/Trace/Fio.antt =====
-- The numbers that generate_fio_job of src/kvbench/trace/fio.py derives from a trace, and its
-- error; the text around them is left out. The text of a float is a parameter.
use llm_kv_passthrough.Prelude.{
  ℕ, zero, suc, ◌+◌, ◌-◌, ◌*◌, ◌/◌, ◌%◌, ◌≤◌, ◌<◌, ◌≡◌, ◌⊎◌, max, refl, subst, sym, ap, ◌∙◌, Bool,
  true, false, Option, none, some, inl, inr, List, [], ◌∷◌, ◌++◌, All, ◌==◌, ==_iff, leb, ltb,
  if◌then◌else◌, Bool-cases, Text, codes, arith,
}
use llm_kv_passthrough.Prelude.Int.{str}
use llm_kv_passthrough.Prelude.Result.{Result, ok, err, value_error}
use llm_kv_passthrough.Trace.{TraceEvent, CounterKey, or_zero}
use llm_kv_passthrough.Trace.Log.{matches, totals}
use llm_kv_passthrough.Trace.Counters.{collect_from-totals}
use native.Mathlib.Nat.{div-mul-le_self, le-div_iff_mul-le}
use llm_kv_passthrough.Trace.Collect.{
  OpStats, op_stats, Intervals, count_size, add_size, add_interval, observe, collect_from, collect,
  most_common, dominant_of, dominant_size, TraceSummary, summarize,
}

-- _fmt_bytes: the largest unit that divides n, or that fits it four times; `format_float n k` is
-- n / k written with one digit after the point.
unfoldable pub fmt_unit : (ℕ → ℕ → Text) → ℕ → List (Text × ℕ) → Text
unfolding str
fmt_unit format_float n [] = str n
fmt_unit format_float n ((unit, factor) ∷ units) =
    let rest = fmt_unit format_float n units in
    if n % factor == 0
    then str (n / factor) ++ unit
    else if leb (factor * 4) n
    then format_float n factor ++ unit
    else rest

abbrev pub units : List (Text × ℕ)
units = (codes "G", 1073741824) ∷ (codes "M", 1048576) ∷ (codes "K", 1024) ∷ []

unfoldable pub fmt_bytes : (ℕ → ℕ → Text) → Option ℕ → Text
unfolding fmt_unit
fmt_bytes format_float none = codes "0"
fmt_bytes format_float (some zero) = codes "0"
fmt_bytes format_float (some (suc n)) = fmt_unit format_float (suc n) units

pub record FioJob : Type 0 where
  pub chunk_bytes : ℕ
  pub write_jobs : ℕ
  pub read_jobs : ℕ
  pub files_per_write_job : ℕ
  pub files_per_read_job : ℕ
  pub direct : ℕ

unfoldable pub job_of : TraceSummary → ℕ → FioJob
job_of summary chunk_bytes =
    let write_jobs = max 1 summary.io_write.max_concurrency in
    let read_jobs : ℕ =
      if summary.io_read.count == 0 then 0 else max 1 summary.io_read.max_concurrency in
    let total_files = max (max summary.steady_state_files write_jobs) 16 in
    record {
      chunk_bytes = chunk_bytes;
      write_jobs = write_jobs;
      read_jobs = read_jobs;
      files_per_write_job = max 1 (total_files / write_jobs);
      files_per_read_job = if read_jobs == 0 then 0 else max 1 (total_files / read_jobs);
      direct = if summary.use_odirect then 1 else 0;
    }

-- `if not chunk_bytes: raise ValueError`
unfoldable pub job_for : TraceSummary → Option ℕ → Result FioJob
unfolding job_of
job_for summary none = err value_error
job_for summary (some zero) = err value_error
job_for summary (some (suc n)) = ok (job_of summary (suc n))

unfoldable pub generate_fio_job : TraceSummary → Result FioJob
unfolding job_for dominant_size
generate_fio_job summary = job_for summary (dominant_size summary.io_write)

abbrev pub writes : Text → CounterKey
writes backend = (codes "io", codes "write", backend)

-- The sizes that were counted, each positive.
abbrev Positive : ℕ × ℕ → Type 0
Positive p = 0 < p.0

count_size-Positive :
    (n : ℕ) (sizes : List (ℕ × ℕ)) → All Positive sizes → All Positive (count_size (suc n) sizes)
unfolding count_size
count_size-Positive n [] h = (omega arith, tt)
count_size-Positive n ((s, m) ∷ rest) h = elim (Bool-cases (s == suc n)) [
  | inl e ↦ rw e (h.0, h.1)
  | inr e ↦ rw e (h.0, count_size-Positive n rest h.1)
]

add_size-Positive :
    (n : ℕ) (sizes : List (ℕ × ℕ)) → All Positive sizes → All Positive (add_size n sizes)
unfolding add_size
add_size-Positive zero sizes h = h
add_size-Positive (suc n) sizes h = count_size-Positive n sizes h

most_common-Positive :
    (s n : ℕ) (sizes : List (ℕ × ℕ)) → 0 < s → All Positive sizes → 0 < most_common s n sizes
unfolding most_common
most_common-Positive s n [] h k = h
most_common-Positive s n ((r, m) ∷ rest) h k = elim (Bool-cases (ltb n m)) [
  | inl e ↦ rw e (most_common-Positive r m rest k.0 k.1)
  | inr e ↦ rw e (most_common-Positive s n rest h k.1)
]

observe-sizes :
    (e : TraceEvent) (s : OpStats × Intervals)
    → (observe e s).0.sizes ≡ add_size (or_zero e.size) s.0.sizes
observe-sizes e (stats, intervals) = timed e.mono_us
  where
    timed :
        (mono : Option ℕ)
        → (observe (record e { mono_us = mono }) (stats, intervals)).0.sizes
          ≡ add_size (or_zero e.size) stats.sizes
    timed none = unfold observe add_interval in refl
    timed (some mono) = unfold observe add_interval in refl

observe-bytes :
    (e : TraceEvent) (s : OpStats × Intervals)
    → (observe e s).0.total_bytes ≡ s.0.total_bytes + or_zero e.size
observe-bytes e (stats, intervals) = timed e.mono_us
  where
    timed :
        (mono : Option ℕ)
        → (observe (record e { mono_us = mono }) (stats, intervals)).0.total_bytes
          ≡ stats.total_bytes + or_zero e.size
    timed none = unfold observe add_interval in refl
    timed (some mono) = unfold observe add_interval in refl

collect_from-Positive :
    (k : CounterKey) (es : List TraceEvent) (s : OpStats × Intervals)
    → All Positive s.0.sizes
    → All Positive (collect_from k es s).0.sizes
unfolding collect_from
collect_from-Positive k [] s h = h
collect_from-Positive k (e ∷ es) s h = collect_from-Positive k es _ (seen (matches k e))
  where
    seen : (b : Bool) → All Positive (if b then observe e s else s).0.sizes
    seen true =
        subst (All Positive) (sym (observe-sizes e s))
          (add_size-Positive (or_zero e.size) s.0.sizes h)
    seen false = h

is_empty : List (ℕ × ℕ) → Bool
is_empty [] = true
is_empty (p ∷ ps) = false

count_size-is_empty : (n : ℕ) (sizes : List (ℕ × ℕ)) → is_empty (count_size n sizes) ≡ false
unfolding count_size is_empty
count_size-is_empty n [] = refl
count_size-is_empty n ((s, m) ∷ rest) = elim (Bool-cases (s == n)) [
  | inl e ↦ rw e refl
  | inr e ↦ rw e refl
]

-- There is a size exactly when there are bytes.
Sized : OpStats → Type 0
Sized stats = is_empty stats.sizes ≡ (stats.total_bytes == 0)

add_size-Sized :
    (n : ℕ) (sizes : List (ℕ × ℕ)) (total : ℕ)
    → is_empty sizes ≡ (total == 0)
    → is_empty (add_size n sizes) ≡ (total + n == 0)
unfolding add_size
add_size-Sized zero sizes total h = ground arith
add_size-Sized (suc n) sizes total h = ground (arith, count_size-is_empty (suc n) sizes)

observe-Sized : (e : TraceEvent) (s : OpStats × Intervals) → Sized s.0 → Sized (observe e s).0
unfolding Sized
observe-Sized e s h =
    ap is_empty (observe-sizes e s)
    ∙ add_size-Sized (or_zero e.size) s.0.sizes s.0.total_bytes h
    ∙ ap (λ n. n == 0) (sym (observe-bytes e s))

collect_from-Sized :
    (k : CounterKey) (es : List TraceEvent) (s : OpStats × Intervals)
    → Sized s.0
    → Sized (collect_from k es s).0
unfolding collect_from
collect_from-Sized k [] s h = h
collect_from-Sized k (e ∷ es) s h = collect_from-Sized k es _ (seen (matches k e))
  where
    seen : (b : Bool) → Sized (if b then observe e s else s).0
    seen true = observe-Sized e s h
    seen false = h

-- The file set of a job holds as many files as its jobs together.
jobs_fit : (w t : ℕ) → 0 < w → w ≤ t → w * max 1 (t / w) ≤ t
jobs_fit w t h le =
    let one : 0 < t / w = (le-div_iff_mul-le h).1 (omega arith) in
    let e : max 1 (t / w) ≡ t / w = omega arith in
    let fits = div-mul-le_self t w in rw e (grind arith)

dominant-cases :
    (sizes : List (ℕ × ℕ))
    → All Positive sizes
    → ((is_empty sizes ≡ true) × (dominant_of sizes ≡ none))
      ⊎ ((n : ℕ) × (is_empty sizes ≡ false) × (dominant_of sizes ≡ some (suc n)))
unfolding dominant_of is_empty
dominant-cases [] h = inl (refl, refl)
dominant-cases ((s, n) ∷ rest) h =
    let m = most_common s n rest in
    let above : 0 < m = most_common-Positive s n rest h.0 h.1 in
    let e : m ≡ suc (m - 1) = omega arith in inr (m - 1, refl, ap some e)

-- A job file is refused with ValueError exactly when the physical writes of the backend have no
-- bytes in all; otherwise it has a positive block size and at least one write job, each with at
-- least one file, and the write jobs together use no more files than the file set has: those
-- alive at the end of the trace, one for each write job, and 16 at least.
pub generate_fio_job-cases :
    (events : List TraceEvent) (backend : Text)
    → (((totals (writes backend) events).1 ≡ 0)
        × (generate_fio_job (summarize events backend) ≡ err value_error))
      ⊎ ((job : FioJob) × (0 < (totals (writes backend) events).1)
          × (generate_fio_job (summarize events backend) ≡ ok job)
          × (0 < job.chunk_bytes)
          × (0 < job.write_jobs)
          × (0 < job.files_per_write_job)
          × (job.write_jobs * job.files_per_write_job
              ≤ max (max (summarize events backend).steady_state_files job.write_jobs) 16))
unfolding summarize generate_fio_job job_of dominant_size Sized collect is_empty
generate_fio_job-cases events backend =
    let k = writes backend in
    let s = (collect_from k events (op_stats, [])).0 in
    let sized : is_empty s.sizes ≡ (s.total_bytes == 0) =
      collect_from-Sized k events (op_stats, []) refl in
    let total = (collect_from-totals k events (op_stats, [])).1 in
    elim (dominant-cases s.sizes (collect_from-Positive k events (op_stats, []) tt)) [
      | inl (e, nothing) ↦
          let zero_bytes : s.total_bytes ≡ 0 = (==_iff s.total_bytes 0).0 (sym sized ∙ e) in
          inl (omega (arith, total), ap (job_for (summarize events backend)) nothing)
      | inr (n, e, size) ↦
          let some_bytes : 0 < s.total_bytes = positive s.total_bytes (sym sized ∙ e) in
          inr (
            job_of (summarize events backend) (suc n),
            omega (arith, total),
            ap (job_for (summarize events backend)) size,
            omega arith,
            omega arith,
            omega arith,
            jobs_fit _ _ (omega arith) (omega arith),
          )
    ]
  where
    positive : (n : ℕ) → (n == 0) ≡ false → 0 < n
    positive n h = ground arith
