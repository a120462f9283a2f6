-- ===== src/Trace/Durable.antt =====
-- What of a trace is on the disk when the process stops between two steps of the recorder
-- (src/kvbench/trace/recorder.py).
use llm_kv_passthrough.Prelude.{
  ℕ, ◌<◌, ◌≡◌, refl, sym, ap, ◌∙◌, subst, Bool, true, List, [], ◌∷◌, ◌++◌, length, length-append,
  take, drop, take-append-drop, if◌then◌else◌, Bool-cases, inl, inr, Text, arith,
}
use llm_kv_passthrough.Trace.{
  TraceEvent, Json, Clock, CounterKey, Recorder, open_trace, event_of, line_of, flushed, due,
  flush_due, write_event, or_zero, Act, record_call, flush, close, drain, step, run,
}
use llm_kv_passthrough.Trace.Log.{
  EventLog, log_step, log_run, empty_log, encode, Refines, encode-snoc,
}
use llm_kv_passthrough.Trace.Refine.{both_if, step-Refines, run-Refines}
use mathlib.Core.List.{append_assoc, append-nil}

-- The events are those whose lines are on the disk, then the recent ones, of whose lines a
-- beginning is there and the rest in the buffer.
record IsDurable (json : Json) (r : Recorder) (events : List TraceEvent) : Type 0 where
  kept : List TraceEvent
  recent : List TraceEvent
  part : Text
  all : events ≡ kept ++ recent
  counted : length recent ≡ r.unflushed
  on_disk : r.disk ≡ encode json kept ++ part
  buffered : part ++ r.buffer ≡ encode json recent

encode-append :
    (json : Json) (es fs : List TraceEvent)
    → encode json (es ++ fs) ≡ encode json es ++ encode json fs
unfolding encode
encode-append json [] fs = refl
encode-append json (e ∷ es) fs =
    ap (λ t. line_of json e ++ t) (encode-append json es fs)
    ∙ sym (append_assoc (line_of json e) (encode json es) (encode json fs))

new_trace :
    (json : Json) (wall_us : ℕ) (clock : Clock) → IsDurable json (open_trace wall_us clock) []
unfolding open_trace encode
new_trace json wall_us clock = record {
  kept = [];
  recent = [];
  part = [];
  all = refl;
  counted = refl;
  on_disk = refl;
  buffered = refl;
}

module _ (json : Json) where
  write_event-IsDurable :
      (e : TraceEvent) (k : CounterKey) (size : ℕ) (r : Recorder) (es : List TraceEvent)
      → IsDurable json r es
      → IsDurable json (write_event json e k size r) (es ++ e ∷ [])
  unfolding write_event
  write_event-IsDurable e k size r es h = record {
    kept = h.kept;
    recent = h.recent ++ e ∷ [];
    part = h.part;
    all = ap (λ l. l ++ e ∷ []) h.all ∙ append_assoc h.kept h.recent (e ∷ []);
    counted = omega (arith, length-append {0} h.recent (e ∷ []), h.counted);
    on_disk = h.on_disk;
    buffered =
        sym (append_assoc h.part r.buffer (line_of json e))
        ∙ ap (λ t. t ++ line_of json e) h.buffered
        ∙ sym (encode-snoc json h.recent e);
  }

  -- A flush that starts the count again.
  flush-IsDurable :
      (now : ℕ) (r : Recorder) (es : List TraceEvent)
      → IsDurable json r es
      → IsDurable json (record (flushed r) { unflushed = 0; last_flush = now }) es
  unfolding encode
  flush-IsDurable now r es h = record {
    kept = es;
    recent = [];
    part = [];
    all = sym (append-nil es);
    counted = refl;
    on_disk =
        ap (λ t. t ++ r.buffer) h.on_disk
        ∙ append_assoc (encode json h.kept) h.part r.buffer
        ∙ ap (λ t. encode json h.kept ++ t) h.buffered
        ∙ sym (encode-append json h.kept h.recent)
        ∙ ap (encode json) (sym h.all)
        ∙ sym (append-nil (encode json es));
    buffered = refl;
  }

  flush_due-IsDurable :
      (now : ℕ) (r : Recorder) (es : List TraceEvent)
      → IsDurable json r es
      → IsDurable json (flush_due now r) es
  unfolding flush_due
  flush_due-IsDurable now r es h = elim (Bool-cases (due r now)) [
    | inl e ↦ rw e (flush-IsDurable now r es h)
    | inr e ↦ rw e h
  ]

  -- A part of the buffer reaches the disk.
  drain-IsDurable :
      (n : ℕ) (b : Bool) (r : Recorder) (es : List TraceEvent)
      → IsDurable json r es
      → IsDurable json
          (record r { disk = r.disk ++ take n r.buffer; buffer = drop n r.buffer; closed = b })
          es
  drain-IsDurable n b r es h = record {
    kept = h.kept;
    recent = h.recent;
    part = h.part ++ take n r.buffer;
    all = h.all;
    counted = h.counted;
    on_disk =
        ap (λ t. t ++ take n r.buffer) h.on_disk
        ∙ append_assoc (encode json h.kept) h.part (take n r.buffer);
    buffered =
        append_assoc h.part (take n r.buffer) (drop n r.buffer)
        ∙ ap (λ t. h.part ++ t) (take-append-drop n r.buffer)
        ∙ h.buffered;
  }

  flushed-IsDurable :
      (b : Bool) (r : Recorder) (es : List TraceEvent)
      → IsDurable json r es
      → IsDurable json (record (flushed r) { closed = b }) es
  flushed-IsDurable b r es h = record {
    kept = h.kept;
    recent = h.recent;
    part = h.part ++ r.buffer;
    all = h.all;
    counted = h.counted;
    on_disk = ap (λ t. t ++ r.buffer) h.on_disk ∙ append_assoc (encode json h.kept) h.part r.buffer;
    buffered = append-nil (h.part ++ r.buffer) ∙ h.buffered;
  }

  step-IsDurable :
      (a : Act) (r : Recorder) (l : EventLog)
      → Refines json r l
      → IsDurable json r l.events
      → IsDurable json (step json a r) (log_step a l).events
  unfolding step log_step
  step-IsDurable (record_call clock call) r l f h =
      both_if (λ r l. IsDurable json r l.events) f.ends (λ e. h)
        (λ e.
          let w =
            write_event json (event_of r.perf0 r.wall0 clock call)
              (call.event, call.op, call.backend) (or_zero call.size) r in
          subst (λ ev. IsDurable json (flush_due clock.monotonic_us w) (l.events ++ ev ∷ []))
            (ap (λ p. event_of p r.wall0 clock call) f.perf
              ∙ ap (λ w. event_of l.perf0 w clock call) f.wall)
            (flush_due-IsDurable clock.monotonic_us w _ (
              write_event-IsDurable (event_of r.perf0 r.wall0 clock call)
                (call.event, call.op, call.backend) (or_zero call.size) r l.events h)))
  step-IsDurable flush r l f h = elim (Bool-cases r.closed) [
    | inl e ↦
        subst (λ x. IsDurable json x l.events) (ap (λ b. if b then r else flushed r) (sym e)) h
    | inr e ↦
        subst (λ x. IsDurable json x l.events) (ap (λ b. if b then r else flushed r) (sym e))
          (flushed-IsDurable r.closed r l.events h)
  ]
  step-IsDurable close r l f h = elim (Bool-cases r.closed) [
    | inl e ↦
        subst (λ x. IsDurable json x l.events)
          (ap (λ b. if b then r else record (flushed r) { closed = true }) (sym e)) h
    | inr e ↦
        subst (λ x. IsDurable json x l.events)
          (ap (λ b. if b then r else record (flushed r) { closed = true }) (sym e))
          (flushed-IsDurable true r l.events h)
  ]
  step-IsDurable (drain n) r l f h = drain-IsDurable n r.closed r l.events h

  run-IsDurable :
      (acts : List Act) (r : Recorder) (l : EventLog)
      → Refines json r l
      → IsDurable json r l.events
      → IsDurable json (run json acts r) (log_run acts l).events
  unfolding run log_run
  run-IsDurable [] r l f h = h
  run-IsDurable (a ∷ acts) r l f h =
      run-IsDurable acts (step json a r) (log_step a l) (step-Refines json a r l f)
        (step-IsDurable a r l f h)

-- Whatever the steps, and wherever the process stops between them: the disk holds the whole lines
-- of all recorded events but the last ones, fewer than 256, and then a beginning of their lines.
pub disk-run :
    (json : Json) (acts : List Act) (wall_us : ℕ) (clock : Clock)
    → (kept : List TraceEvent) × (recent : List TraceEvent) × (part : Text) × (rest : Text)
      × ((log_run acts (empty_log wall_us clock)).events ≡ kept ++ recent)
      × (length recent < 256)
      × ((run json acts (open_trace wall_us clock)).disk ≡ encode json kept ++ part)
      × (part ++ rest ≡ encode json recent)
unfolding open_trace run log_run
disk-run json acts wall_us clock =
    let start : Recorder = open_trace wall_us clock in
    let h : IsDurable json (run json acts start) (log_run acts (empty_log wall_us clock)).events =
      run-IsDurable json acts start (empty_log wall_us clock) (run-Refines json [] wall_us clock)
        (new_trace json wall_us clock) in
    let below = (run-Refines json acts wall_us clock).bounded in
    (
      h.kept,
      h.recent,
      h.part,
      (run json acts start).buffer,
      h.all,
      omega (arith, h.counted, below),
      h.on_disk,
      h.buffered,
    )
