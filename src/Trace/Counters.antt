-- ===== src/Trace/Counters.antt =====
-- What the analysis counts in a trace file is what the recorder counted while it wrote the file.
use llm_kv_passthrough.Prelude.{
  ℕ, ◌+◌, ◌≤◌, ◌≡◌, ◌⊎◌, refl, subst, sym, ap, ◌∙◌, Bool, true, false, Option, none, some, inl, inr,
  List, [], ◌∷◌, All, All-append, if◌then◌else◌, Bool-cases, arith,
}
use llm_kv_passthrough.Prelude.Int.{ℤ, pos}
use llm_kv_passthrough.Trace.{
  TraceEvent, Json, Act, Clock, CounterKey, counter, or_zero, open_trace, run,
}
use llm_kv_passthrough.Trace.Log.{empty_log, log_run, matches, totals}
use llm_kv_passthrough.Trace.Refine.{run-Refines}
use llm_kv_passthrough.Trace.Load.{ReadsBack, load_events, load_events-run}
use llm_kv_passthrough.Trace.Moments.{moments, minus, earlier, ends_after}
use llm_kv_passthrough.Trace.Concurrency.{running}
use llm_kv_passthrough.Trace.Peak.{max_concurrency_lem}
use llm_kv_passthrough.Trace.Collect.{
  OpStats, op_stats, Intervals, add_interval, observe, collect_from, collect,
}

-- An event counts in the loop as it does in the totals of the rest.
observe-totals :
    (b : Bool) (e : TraceEvent) (s : OpStats × Intervals) (rest : ℕ × ℕ)
    → ((if b then observe e s else s).0.count + rest.0
        ≡ s.0.count + (if b then (rest.0 + 1, rest.1 + or_zero e.size) else rest).0)
      × ((if b then observe e s else s).0.total_bytes + rest.1
          ≡ s.0.total_bytes + (if b then (rest.0 + 1, rest.1 + or_zero e.size) else rest).1)
observe-totals false e s rest = (refl, refl)
observe-totals true e (stats, intervals) rest = timed e.mono_us
  where
    timed :
        (mono : Option ℕ)
        → ((observe (record e { mono_us = mono }) (stats, intervals)).0.count + rest.0
            ≡ stats.count + (rest.0 + 1))
          × ((observe (record e { mono_us = mono }) (stats, intervals)).0.total_bytes + rest.1
              ≡ stats.total_bytes + (rest.1 + or_zero e.size))
    timed none = unfold observe add_interval in (omega arith, omega arith)
    timed (some mono) = unfold observe add_interval in (omega arith, omega arith)

pub collect_from-totals :
    (k : CounterKey) (es : List TraceEvent) (s : OpStats × Intervals)
    → ((collect_from k es s).0.count ≡ s.0.count + (totals k es).0)
      × ((collect_from k es s).0.total_bytes ≡ s.0.total_bytes + (totals k es).1)
unfolding collect_from totals
collect_from-totals k [] s = (omega arith, omega arith)
collect_from-totals k (e ∷ es) s =
    let (a, b) = collect_from-totals k es (if matches k e then observe e s else s) in
    let (c, d) = observe-totals (matches k e) e s (totals k es) in (a ∙ c, b ∙ d)

-- Once the recorder is closed, the analysis of the file that it wrote counts, for every event,
-- operation and backend, as many records and bytes as the recorder's own counters, if JSON reads
-- each record back.
pub collect-counter :
    (json : Json) (acts : List Act) (wall_us : ℕ) (clock : Clock) (k : CounterKey)
    → (log_run acts (empty_log wall_us clock)).ended ≡ true
    → All (ReadsBack json) (log_run acts (empty_log wall_us clock)).events
    → ((collect (load_events json (run json acts (open_trace wall_us clock)).disk) k).count
        ≡ (counter k (run json acts (open_trace wall_us clock)).counters).0)
      × ((collect (load_events json (run json acts (open_trace wall_us clock)).disk) k).total_bytes
          ≡ (counter k (run json acts (open_trace wall_us clock)).counters).1)
unfolding collect
collect-counter json acts wall_us clock k ended back =
    let h = run-Refines json acts wall_us clock in
    let es = (log_run acts (empty_log wall_us clock)).events in
    let (a, b) = collect_from-totals k es (op_stats, []) in
    rw (load_events-run json acts wall_us clock ended back)
      (omega (arith, a, ap (λ v. v.0) (h.counted k)), omega (arith, b, ap (λ v. v.1) (h.counted k)))

-- The intervals of the loop end no earlier than they start.
Forward : ℤ × ℤ → Type 0
Forward i = earlier i.1 i.0 ≡ false

observe-Forward :
    (e : TraceEvent) (s : OpStats × Intervals) → All Forward s.1 → All Forward (observe e s).1
observe-Forward e (stats, intervals) h = timed e.mono_us
  where
    timed :
        (mono : Option ℕ) → All Forward (observe (record e { mono_us = mono }) (stats, intervals)).1
    timed none = unfold observe add_interval in h
    timed (some mono) =
        unfold observe add_interval Forward in
        All-append Forward intervals ((minus mono (or_zero e.dur_us), pos mono) ∷ []) h
          (ends_after mono (or_zero e.dur_us), tt)

collect_from-Forward :
    (k : CounterKey) (es : List TraceEvent) (s : OpStats × Intervals)
    → All Forward s.1
    → All Forward (collect_from k es s).1
unfolding collect_from
collect_from-Forward k [] s h = h
collect_from-Forward k (e ∷ es) s h = elim (Bool-cases (matches k e)) [
  | inl b ↦
      subst (λ c. All Forward (collect_from k es (if c then observe e s else s)).1) (sym b)
        (collect_from-Forward k es (observe e s) (observe-Forward e s h))
  | inr b ↦
      subst (λ c. All Forward (collect_from k es (if c then observe e s else s)).1) (sym b)
        (collect_from-Forward k es s h)
]

-- The reported concurrency of an operation is exactly the largest number of its measured calls
-- that run at one moment, a call from its start (its time less its duration) up to and without
-- its end: no moment has more, and some moment has as many, or the report is 0.
pub collect-concurrency :
    (events : List TraceEvent) (k : CounterKey)
    → ((t : ℤ)
        → running moments t (collect_from k events (op_stats, [])).1
          ≤ (collect events k).max_concurrency)
      × (((collect events k).max_concurrency ≡ 0)
          ⊎ ((t : ℤ) × (running moments t (collect_from k events (op_stats, [])).1
                ≡ (collect events k).max_concurrency)))
unfolding collect Forward
collect-concurrency events k =
    max_concurrency_lem moments (collect_from k events (op_stats, [])).1
      (collect_from-Forward k events (op_stats, []) tt)
