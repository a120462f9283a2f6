-- ===== src/Trace/Log.antt =====
-- The log that a recorder (src/kvbench/trace/recorder.py) keeps: the events recorded before it was
-- closed, their lines and their counts.
use llm_kv_passthrough.Prelude.{
  ℕ, ◌+◌, ◌<◌, ◌≡◌, ◌⊎◌, refl, sym, ap, ◌∙◌, Bool, true, false, ◌&&◌, Option, none, some, inl, inr,
  List, [], ◌∷◌, ◌++◌, if◌then◌else◌, Bool-cases, Text, text_eq, text_eq_iff, arith,
}
use llm_kv_passthrough.Trace.{
  TraceEvent, Call, Clock, Json, CounterKey, Counters, same_key, counter, bump, or_zero, Recorder,
  event_of, line_of, Act, record_call, flush, close, drain,
}
use mathlib.Core.List.{append_assoc, append-nil}

-- The log: the anchors of its clocks, its events, and whether it has ended.
pub record EventLog : Type 0 where
  pub perf0 : ℕ
  pub wall0 : ℕ
  pub events : List TraceEvent
  pub ended : Bool

unfoldable pub log_step : Act → EventLog → EventLog
unfolding event_of
log_step (record_call clock call) l =
    if l.ended
    then l
    else record l { events = l.events ++ event_of l.perf0 l.wall0 clock call ∷ [] }
log_step flush l = l
log_step close l = record l { ended = true }
log_step (drain k) l = l

unfoldable pub log_run : List Act → EventLog → EventLog
unfolding log_step
log_run [] l = l
log_run (a ∷ acts) l = log_run acts (log_step a l)

abbrev pub empty_log : ℕ → Clock → EventLog
empty_log wall_us clock = record {
  perf0 = clock.perf_us;
  wall0 = wall_us;
  events = [];
  ended = false;
}

-- The content of a trace file with these events.
unfoldable pub encode : Json → List TraceEvent → Text
encode json [] = []
encode json (e ∷ es) = line_of json e ++ encode json es

abbrev pub is_text : Option Text → Text → Bool
is_text none t = false
is_text (some s) t = text_eq s t

-- An event of this name.
unfoldable pub matches : CounterKey → TraceEvent → Bool
matches (event, op, backend) e =
    is_text e.event event && is_text e.op op && is_text e.backend backend

-- How many events of this name there are, and their bytes.
unfoldable pub totals : CounterKey → List TraceEvent → ℕ × ℕ
unfolding matches
totals k [] = (0, 0)
totals k (e ∷ es) =
    let rest = totals k es in if matches k e then (rest.0 + 1, rest.1 + or_zero e.size) else rest

-- What the recorder keeps of a log.
pub record Refines (json : Json) (r : Recorder) (l : EventLog) : Type 0 where
  pub written : r.disk ++ r.buffer ≡ encode json l.events
  pub counted : (k : CounterKey) → counter k r.counters ≡ totals k l.events
  pub ends : r.closed ≡ l.ended
  pub on_disk : r.closed ≡ true → r.buffer ≡ []
  pub bounded : r.unflushed < 256
  pub perf : r.perf0 ≡ l.perf0
  pub wall : r.wall0 ≡ l.wall0

pub encode-snoc :
    (json : Json) (es : List TraceEvent) (e : TraceEvent)
    → encode json (es ++ e ∷ []) ≡ encode json es ++ line_of json e
unfolding encode
encode-snoc json [] e = append-nil (line_of json e)
encode-snoc json (x ∷ es) e =
    ap (λ t. line_of json x ++ t) (encode-snoc json es e)
    ∙ sym (append_assoc (line_of json x) (encode json es) (line_of json e))

same_key_iff : (j k : CounterKey) → same_key j k ≡ true → j ≡ k
unfolding same_key
same_key_iff (a, b, c) (a', b', c') h =
    ground (arith, text_eq_iff a a', text_eq_iff b b', text_eq_iff c c')

abbrev pub plus : ℕ → ℕ × ℕ → ℕ × ℕ
plus size v = (v.0 + 1, v.1 + size)

pub counter-bump :
    (k q : CounterKey) (size : ℕ) (cs : Counters)
    → counter q (bump k size cs) ≡ (if same_key k q then plus size (counter q cs) else counter q cs)
unfolding counter bump
counter-bump k q size [] = ground arith
counter-bump k q size ((j, v) ∷ cs) = elim (Bool-cases (same_key j k)) [
  | inl e ↦
      let same : same_key k q ≡ same_key j q = ap (λ i. same_key i q) (sym (same_key_iff j k e)) in
      rw e (ground (arith, same))
  | inr e ↦ rw e (apart e (counter-bump k q size cs) (Bool-cases (same_key j q)))
]
  where
    apart :
        same_key j k ≡ false
        → counter q (bump k size cs)
          ≡ (if same_key k q then plus size (counter q cs) else counter q cs)
        → (same_key j q ≡ true) ⊎ (same_key j q ≡ false)
        → (if same_key j q then v else counter q (bump k size cs)) ≡ (
            if same_key k q
            then plus size (if same_key j q then v else counter q cs)
            else if same_key j q
            then v
            else counter q cs)
    apart e ih (inl h) = elim (Bool-cases (same_key k q)) [
      | inl f ↦
          let same : same_key j k ≡ same_key j q = ap (λ i. same_key j i) (same_key_iff k q f) in cc
      | inr f ↦ rw (f, h) refl
    ]
    apart e ih (inr h) = rw h ih

-- Adding one event's counts commutes with adding another's.
count_two :
    (a b : Bool) (m n : ℕ) (t : ℕ × ℕ)
    → (if a then plus m (if b then plus n t else t) else if b then plus n t else t)
      ≡ (if b then plus n (if a then plus m t else t) else if a then plus m t else t)
count_two a b m n t = ground arith

pub totals-snoc :
    (k : CounterKey) (es : List TraceEvent) (e : TraceEvent)
    → totals k (es ++ e ∷ [])
      ≡ (if matches k e then plus (or_zero e.size) (totals k es) else totals k es)
unfolding totals
totals-snoc k [] e = ground arith
totals-snoc k (x ∷ es) e =
    rw (totals-snoc k es e)
      (count_two (matches k x) (matches k e) (or_zero x.size) (or_zero e.size) (totals k es))

pub event_of-matches :
    (p w : ℕ) (clock : Clock) (call : Call) (q : CounterKey)
    → matches q (event_of p w clock call) ≡ same_key (call.event, call.op, call.backend) q
unfolding event_of matches same_key
event_of-matches p w clock call q = refl
