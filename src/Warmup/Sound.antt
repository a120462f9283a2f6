-- ===== src/Warmup/Sound.antt =====
-- The end of a warmup run, by its workers, by the eviction check or by cancel, keeps what Kept
-- states, and so does every sequence of events.
use llm_kv_passthrough.Prelude.{
  ℕ, ◌-◌, ◌≤◌, ◌<◌, ◌≡◌, refl, Bool, true, false, ◌||◌, Option, none, some, List, [], ◌∷◌, length,
  get_elem?, ltb, inl, ◌==◌, ==_iff, if◌then◌else◌, All, sum_of, arith,
}
use llm_kv_passthrough.Warmup.{
  done, error, Task, no_task, created, gathering, finished, checking, Stage, starting, storing,
  ended, failed, stopped, Worker, Controller, init, is_running, work, gathered, finish, begin_check,
  settle_as, settle, both, evicted, check, Event, starts, enters, settles, cancels, unwinds, works,
  stops, resumes_cancel, looks_up, step, run,
}
use llm_kv_passthrough.Warmup.Kept.{own, IsFull, finish-IsSound, Reached, IsSound, work_on-IsSound}
use llm_kv_passthrough.Warmup.Runs.{start-IsSound, enter-IsSound}
use llm_kv_passthrough.Warmup.Cancelled.{
  unwind-IsSound, request_cancel-IsSound, stop_worker-IsSound, resume_cancel-IsSound,
}

both_ended : (s rest : Stage) → both s rest ≡ ended → s ≡ ended
unfolding both
both_ended ended rest e = refl
both_ended failed rest e = cc
both_ended starting starting e = cc
both_ended starting storing e = cc
both_ended starting ended e = cc
both_ended starting failed e = cc
both_ended starting stopped e = cc
both_ended storing starting e = cc
both_ended storing storing e = cc
both_ended storing ended e = cc
both_ended storing failed e = cc
both_ended storing stopped e = cc
both_ended stopped starting e = cc
both_ended stopped storing e = cc
both_ended stopped ended e = cc
both_ended stopped failed e = cc
both_ended stopped stopped e = cc

-- A gathered run has all its workers ended, so its target is reached.
gathered-Reached :
    (c : Controller) (ws : List Worker)
    → All (IsFull c) ws
    → gathered c.runs ws ≡ ended
    → 0 < sum_of (own c.runs) ws
    → c.status.target_bytes ≤ c.status.stored_bytes
unfolding gathered
gathered-Reached c [] a e some_own = absurd (omega arith)
gathered-Reached c (w ∷ ws) a e some_own = go (gathered-Reached c ws a.1) (w.run == c.runs) refl e
  where
    go :
        (gathered c.runs ws ≡ ended
          → 0 < sum_of (own c.runs) ws
          → c.status.target_bytes ≤ c.status.stored_bytes)
        → (b : Bool) → (w.run == c.runs) ≡ b
        → (if b then both w.stage (gathered c.runs ws) else gathered c.runs ws) ≡ ended
        → c.status.target_bytes ≤ c.status.stored_bytes
    go later true mine e = a.0.1 ((==_iff w.run c.runs).0 mine) (both_ended w.stage _ e)
    go later false other e =
        let k : own c.runs w ≡ 0 = rw other refl in later e (omega (arith, some_own, k))

pub settle-IsSound : (t : Task) (c : Controller) → c.task ≡ t → IsSound c → IsSound (settle t c)
unfolding settle
settle-IsSound no_task c e h = h
settle-IsSound created c e h = h
settle-IsSound finished c e h = h
settle-IsSound (checking n) c e h = h
settle-IsSound gathering c e h = go (gathered c.runs c.workers) refl
  where
    reached : gathered c.runs c.workers ≡ ended → Reached c
    reached over some_worker = gathered-Reached c c.workers h.full over (h.gathers e some_worker)

    check_next :
        (o : Option (List ℕ)) → gathered c.runs c.workers ≡ ended → IsSound (begin_check o c)
    check_next none over =
        unfold begin_check in finish-IsSound done c h (λ r. cc) (λ r. reached over)
    check_next (some seq) over =
        unfold begin_check is_running in
        record {
          bounded = h.bounded;
          full = h.full;
          live = λ r. h.live (rw e refl);
          over = λ r. inl refl;
          asked = λ r live. h.asked r (rw e refl);
          gathers = λ r. cc;
          checks = λ n r. reached over;
          completes = h.completes;
        }

    go : (s : Stage) → gathered c.runs c.workers ≡ s → IsSound (settle_as s c)
    go failed over = unfold settle_as in finish-IsSound error c h (λ r. cc) (λ r. cc)
    go ended over = unfold settle_as in check_next c.first_seq over
    go starting over = unfold settle_as in h
    go storing over = unfold settle_as in h
    go stopped over = unfold settle_as in h

evicted-IsSound :
    (n hit : ℕ) (o : Option (List ℕ)) (c : Controller)
    → c.task ≡ checking n
    → IsSound c
    → IsSound (evicted n hit o c)
unfolding evicted is_running
evicted-IsSound n hit none c e h = finish-IsSound done c h (λ r. cc) (λ r. h.checks n e)
evicted-IsSound n hit (some seq) c e h = go (ltb hit (length seq) || n == 1)
  where
    found : Controller
    found = record c { status = record c.status { evicting = ltb hit (length seq) } }

    found-IsSound : IsSound found
    found-IsSound = record {
      bounded = h.bounded;
      full = same c.workers h.full;
      live = h.live;
      over = h.over;
      asked = h.asked;
      gathers = h.gathers;
      checks = h.checks;
      completes = h.completes;
    }
      where
        same : (ws : List Worker) → All (IsFull c) ws → All (IsFull found) ws
        same [] a = tt
        same (w ∷ ws) a = (a.0, same ws a.1)

    go :
        (b : Bool)
        → IsSound (if b then finish done found else record found { task = checking (n - 1) })
    go true = finish-IsSound done found found-IsSound (λ r. cc) (λ r. h.checks n e)
    go false = record {
      bounded = h.bounded;
      full = found-IsSound.full;
      live = λ r. h.live (rw e refl);
      over = λ r. inl refl;
      asked = λ r live. h.asked r (rw e refl);
      gathers = λ r. cc;
      checks = λ m r. h.checks n e;
      completes = h.completes;
    }

pub check-IsSound :
    (hit : Option ℕ) (t : Task) (c : Controller) → c.task ≡ t → IsSound c → IsSound (check hit t c)
unfolding check
check-IsSound none (checking n) c e h = finish-IsSound done c h (λ r. cc) (λ r. h.checks n e)
check-IsSound (some hit) (checking n) c e h = evicted-IsSound n hit c.first_seq c e h
check-IsSound none no_task c e h = h
check-IsSound none created c e h = h
check-IsSound none gathering c e h = h
check-IsSound none finished c e h = h
check-IsSound (some hit) no_task c e h = h
check-IsSound (some hit) created c e h = h
check-IsSound (some hit) gathering c e h = h
check-IsSound (some hit) finished c e h = h

if-IsSound :
    (b : Bool) (c d : Controller)
    → (b ≡ true → IsSound c)
    → (b ≡ false → IsSound d)
    → IsSound (if b then c else d)
if-IsSound true c d then_ else_ = then_ refl
if-IsSound false c d then_ else_ = else_ refl

step-IsSound : (e : Event) (c : Controller) → IsSound c → IsSound (step e c)
unfolding step work
step-IsSound (starts request info) c h = start-IsSound request info c h
step-IsSound enters c h = if-IsSound c.requested c _ (λ e. h) (λ e. enter-IsSound c.task c refl h)
step-IsSound settles c h = if-IsSound c.requested c _ (λ e. h) (λ e. settle-IsSound c.task c refl h)
step-IsSound cancels c h = request_cancel-IsSound c h
step-IsSound unwinds c h =
    if-IsSound c.requested _ c (λ e. unwind-IsSound c.task c refl e h) (λ e. h)
step-IsSound (works stored drawn k) c h =
    work_on-IsSound stored drawn k (get_elem? c.workers k) c h refl
step-IsSound (looks_up hit) c h =
    if-IsSound c.requested c _ (λ e. h) (λ e. check-IsSound hit c.task c refl h)
step-IsSound (stops k) c h =
    if-IsSound c.requested _ c (λ e. stop_worker-IsSound k (get_elem? c.workers k) c refl h)
      (λ e. h)
step-IsSound (resumes_cancel k) c h = resume_cancel-IsSound k (get_elem? c.awaiting k) c refl h

run_keeps : (es : List Event) (c : Controller) → IsSound c → IsSound (run es c)
unfolding run
run_keeps [] c h = h
run_keeps (e ∷ es) c h = run_keeps es (step e c) (step-IsSound e c h)

-- From a new controller, in every interleaving of starts, worker turns, failing stores, lookups
-- and cancellations: the bytes stored and being stored exceed the target by less than one sequence
-- for each worker task made so far; while the task is not done, the state is running, unless a call
-- of cancel that awaited an earlier run has set it to cancelled; once it is done, the state is
-- running only while a call of cancel awaits this run; and a run with workers that is done, or in
-- its eviction check, has stored its target.
pub warmup-IsSound : (es : List Event) → IsSound (run es init)
warmup-IsSound es = run_keeps es init (
    unfold init is_running in
    record {
      bounded = omega arith;
      full = tt;
      live = λ r. cc;
      over = λ r. cc;
      asked = λ r. cc;
      gathers = λ r. cc;
      checks = λ n r. cc;
      completes = λ r. cc;
    })
