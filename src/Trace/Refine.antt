-- ===== src/Trace/Refine.antt =====
-- Each step of the recorder keeps what the recorder holds of the log.
use llm_kv_passthrough.Prelude.{
  ℕ, ◌<◌, ◌≡◌, subst, refl, sym, ap, ◌∙◌, Bool, true, false, inl, inr, List, [], ◌∷◌, ◌++◌, take,
  drop, drop-nil, take-append-drop, if◌then◌else◌, Bool-cases, arith,
}
use llm_kv_passthrough.Trace.{
  TraceEvent, Clock, Json, CounterKey, same_key, counter, or_zero, Recorder, open_trace, event_of,
  line_of, flushed, due, flush_due, write_event, Act, record_call, flush, close, drain, step, run,
}
use mathlib.Core.List.{append_assoc, append-nil}
use llm_kv_passthrough.Trace.Log.{
  EventLog, log_step, log_run, empty_log, encode, matches, totals, Refines, plus, encode-snoc,
  counter-bump, totals-snoc, event_of-matches,
}

not_due : (r : Recorder) (now : ℕ) → due r now ≡ false → r.unflushed < 256
unfolding due
not_due r now h = ground arith

pub both_if :
    (P : Recorder → EventLog → Type 0) {b c : Bool} {r r' : Recorder} {l l' : EventLog}
    → b ≡ c
    → (b ≡ true → P r l)
    → (b ≡ false → P r' l')
    → P (if b then r else r') (if c then l else l')
both_if P {b} {c} {r} {r'} {l} {l'} e then_ else_ =
    subst (λ x. P (if b then r else r') (if x then l else l')) e
      (elim (Bool-cases b) [ inl t ↦ rw t (then_ t) | inr f ↦ rw f (else_ f) ])

module _ (json : Json) where
  -- After a flush everything is on the disk.
  flushed-Refines :
      (r : Recorder) (l : EventLog) (u now : ℕ)
      → u < 256
      → r.disk ++ r.buffer ≡ encode json l.events
      → ((k : CounterKey) → counter k r.counters ≡ totals k l.events)
      → r.closed ≡ l.ended
      → r.perf0 ≡ l.perf0
      → r.wall0 ≡ l.wall0
      → Refines json (record (flushed r) { unflushed = u; last_flush = now }) l
  flushed-Refines r l u now below written counted ends perf wall = record {
    written = append-nil (r.disk ++ r.buffer) ∙ written;
    counted = counted;
    ends = ends;
    on_disk = λ e. refl;
    bounded = below;
    perf = perf;
    wall = wall;
  }

  -- One more event in both, and the flush when it is due.
  append-Refines :
      (e : TraceEvent) (k : CounterKey) (size now : ℕ) (r : Recorder) (l : EventLog)
      → ((q : CounterKey) → matches q e ≡ same_key k q)
      → or_zero e.size ≡ size
      → r.closed ≡ false
      → Refines json r l
      → Refines json
          (flush_due now (write_event json e k size r))
          (record l { events = l.events ++ e ∷ [] })
  unfolding flush_due write_event
  append-Refines e k size now r l named sized opened h =
      let w : Recorder = write_event json e k size r in
      let written : w.disk ++ w.buffer ≡ encode json (l.events ++ e ∷ []) =
        sym (append_assoc r.disk r.buffer (line_of json e))
        ∙ ap (λ t. t ++ line_of json e) h.written
        ∙ sym (encode-snoc json l.events e) in
      let counted : (q : CounterKey) → counter q w.counters ≡ totals q (l.events ++ e ∷ []) = λ q.
        counter-bump k q size r.counters
        ∙ ap (λ v. if same_key k q then plus size v else v) (h.counted q)
        ∙ ap (λ n. if same_key k q then plus n (totals q l.events) else totals q l.events)
            (sym sized)
        ∙ ap (λ b. if b then plus (or_zero e.size) (totals q l.events) else totals q l.events)
            (sym (named q))
        ∙ sym (totals-snoc q l.events e) in
      elim (Bool-cases (due w now)) [
        | inl now_due ↦
            rw now_due
              (flushed-Refines w _ 0 now (omega arith) written counted h.ends h.perf h.wall)
        | inr later ↦ rw later (record {
          written = written;
          counted = counted;
          ends = h.ends;
          on_disk = λ closed. cc;
          bounded = not_due w now later;
          perf = h.perf;
          wall = h.wall;
        })
      ]

  pub step-Refines :
      (a : Act) (r : Recorder) (l : EventLog)
      → Refines json r l
      → Refines json (step json a r) (log_step a l)
  unfolding step log_step
  step-Refines (record_call clock call) r l h =
      both_if (Refines json) h.ends (λ e. h)
        (λ e.
          let w =
            write_event json (event_of r.perf0 r.wall0 clock call)
              (call.event, call.op, call.backend) (or_zero call.size) r in
          subst
            (λ ev.
              Refines json (flush_due clock.monotonic_us w)
                (record l { events = l.events ++ ev ∷ [] }))
            (ap (λ p. event_of p r.wall0 clock call) h.perf
              ∙ ap (λ w. event_of l.perf0 w clock call) h.wall)
            (append-Refines (event_of r.perf0 r.wall0 clock call)
              (call.event, call.op, call.backend) (or_zero call.size) clock.monotonic_us r l
              (event_of-matches r.perf0 r.wall0 clock call) refl e h))
  step-Refines flush r l h = elim (Bool-cases r.closed) [
    | inl e ↦ subst (λ x. Refines json x l) (ap (λ b. if b then r else flushed r) (sym e)) h
    | inr e ↦
        subst (λ x. Refines json x l) (ap (λ b. if b then r else flushed r) (sym e))
          (flushed-Refines r l r.unflushed r.last_flush h.bounded h.written h.counted h.ends h.perf
            h.wall)
  ]
  step-Refines close r l h = elim (Bool-cases r.closed) [
    | inl e ↦
        subst (λ x. Refines json x (record l { ended = true }))
          (ap (λ b. if b then r else record (flushed r) { closed = true }) (sym e))
          (record {
            written = h.written;
            counted = h.counted;
            ends = e;
            on_disk = h.on_disk;
            bounded = h.bounded;
            perf = h.perf;
            wall = h.wall;
          })
    | inr e ↦
        subst (λ x. Refines json x (record l { ended = true }))
          (ap (λ b. if b then r else record (flushed r) { closed = true }) (sym e))
          (flushed-Refines (record r { closed = true }) (record l { ended = true }) r.unflushed
            r.last_flush h.bounded h.written h.counted refl h.perf h.wall)
  ]
  step-Refines (drain n) r l h = record {
    written =
        append_assoc r.disk (take n r.buffer) (drop n r.buffer)
        ∙ ap (λ t. r.disk ++ t) (take-append-drop n r.buffer)
        ∙ h.written;
    counted = h.counted;
    ends = h.ends;
    on_disk = λ e. ap (λ t. drop n t) (h.on_disk e) ∙ drop-nil n;
    bounded = h.bounded;
    perf = h.perf;
    wall = h.wall;
  }

  run-Refines_from :
      (acts : List Act) (r : Recorder) (l : EventLog)
      → Refines json r l
      → Refines json (run json acts r) (log_run acts l)
  unfolding run log_run
  run-Refines_from [] r l h = h
  run-Refines_from (a ∷ acts) r l h =
      run-Refines_from acts (step json a r) (log_step a l) (step-Refines a r l h)

-- Whatever the calls of record, flush and close and the file's own writes, in any order, the
-- recorder keeps the log of the events recorded before it was closed: the disk followed by the
-- buffer is the lines of exactly these events, each counter has the number and the bytes of its
-- events, the records since the last flush that record made itself stay fewer than 256, and once
-- closed nothing is left in the buffer.
pub run-Refines :
    (json : Json) (acts : List Act) (wall_us : ℕ) (clock : Clock)
    → Refines json
        (run json acts (open_trace wall_us clock))
        (log_run acts (empty_log wall_us clock))
unfolding open_trace encode counter totals
run-Refines json acts wall_us clock =
    run-Refines_from json acts (open_trace wall_us clock) (empty_log wall_us clock) (record {
      written = refl;
      counted = λ k. refl;
      ends = refl;
      on_disk = λ e. refl;
      bounded = omega arith;
      perf = refl;
      wall = refl;
    })
