-- ===== src/Warmup/Cancelled.antt =====
-- The turns of a cancellation (cancel of src/kvbench/servers/warmup.py) keep what Kept states.
use llm_kv_passthrough.Prelude.{
  ℕ, zero, suc, ◌<◌, ◌≡◌, ◌≢◌, refl, sym, ap, subst, inl, inr, Bool, true, false, not, ◌&&◌, Option,
  none, some, List, [], ◌∷◌, ◌++◌, map, get_elem?, set, remove_at, ◌==◌, ==_iff, if◌then◌else◌, All,
  sum_of, sum_of-append, sum_of-remove_at, arith,
}
use llm_kv_passthrough.Warmup.{
  State, idle, running, done, cancelled, error, Task, no_task, created, gathering, finished,
  checking, stopped, Worker, Controller, is_running, finish, stop, is_over, request_cancel, unwind,
  stop_worker, conclude, resume_cancel, run,
}
use llm_kv_passthrough.Warmup.Kept.{awaits, IsFull, IsSound, restage-IsSound, finish-IsSound}
use llm_kv_passthrough.Warmup.Stopped.{sum_stop, stop-IsFull}

set-same : {A : Type 0} (xs : List A) (k : ℕ) (x : A) → get_elem? xs k ≡ some x → set xs k x ≡ xs
set-same [] k x at = refl
set-same (y ∷ ys) zero x at = cc
set-same (y ∷ ys) (suc k) x at = ap (λ l. y ∷ l) (set-same ys k x at)

pub unwind-IsSound :
    (t : Task) (c : Controller) → c.task ≡ t → c.requested ≡ true → IsSound c → IsSound (unwind t c)
unfolding unwind is_running
unwind-IsSound no_task c e r h = h
unwind-IsSound finished c e r h = h
unwind-IsSound created c e r h = record {
  bounded = h.bounded;
  full = same c.workers h.full;
  live = λ e. cc;
  over = λ s. inr (h.asked r (rw e refl));
  asked = λ r l. cc;
  gathers = λ g. cc;
  checks = λ n g. cc;
  completes = h.completes;
}
  where
    same : (ws : List Worker) → All (IsFull c) ws → All (IsFull (record c { task = finished })) ws
    same [] a = tt
    same (w ∷ ws) a = (a.0, same ws a.1)
unwind-IsSound (checking n) c e r h = finish-IsSound cancelled c h (λ r. cc) (λ r. cc)
unwind-IsSound gathering c e r h =
    let s = sum_stop c.runs c.workers in
    unfold finish in
    record {
      bounded = omega (arith, h.bounded, s.0, s.1);
      full = stopped_full c.workers h.full;
      live = λ r. cc;
      over = λ r. cc;
      asked = λ r l. cc;
      gathers = λ r. cc;
      checks = λ n r. cc;
      completes = λ r. cc;
    }
  where
    stopped_full : (ws : List Worker) → All (IsFull c) ws → All (IsFull c) (map (stop c.runs) ws)
    stopped_full [] a = tt
    stopped_full (w ∷ ws) a = (stop-IsFull c w a.0, stopped_full ws a.1)

pub request_cancel-IsSound : (c : Controller) → IsSound c → IsSound (request_cancel c)
unfolding request_cancel
request_cancel-IsSound c h = go (is_running c.task) refl
  where
    next : Controller
    next = record c { requested = true; awaiting = c.awaiting ++ c.runs ∷ [] }

    same : (ws : List Worker) → All (IsFull c) ws → All (IsFull next) ws
    same [] a = tt
    same (w ∷ ws) a = (a.0, same ws a.1)

    own_call : awaits c.runs c.runs ≡ 1
    own_call = rw ((==_iff c.runs c.runs).1 refl) refl

    go : (b : Bool) → is_running c.task ≡ b → IsSound (if b then next else c)
    go false e = h
    go true e = record {
      bounded = h.bounded;
      full = same c.workers h.full;
      live = h.live;
      over = λ s. inl e;
      asked =
          λ r l. omega (arith, own_call, sum_of-append (awaits c.runs) c.awaiting (c.runs ∷ []));
      gathers = h.gathers;
      checks = h.checks;
      completes = h.completes;
    }

pub stop_worker-IsSound :
    (k : ℕ) (o : Option Worker) (c : Controller)
    → get_elem? c.workers k ≡ o
    → IsSound c
    → IsSound (stop_worker k o c)
unfolding stop_worker stop
stop_worker-IsSound k none c at h = h
stop_worker-IsSound k (some w) c at h = go (w.run == c.runs && not (is_over w.stage))
  where
    go :
        (b : Bool)
        → IsSound
            (record c { workers = set c.workers k (if b then record w { stage = stopped } else w) })
    go true =
        restage-IsSound c k w stopped c.first_seq c.seq_counter h at (inl refl) (λ mine over. cc)
    go false = subst (λ ws. IsSound (record c { workers = ws })) (sym (set-same c.workers k w at)) h

pub resume_cancel-IsSound :
    (k : ℕ) (o : Option ℕ) (c : Controller)
    → get_elem? c.awaiting k ≡ o
    → IsSound c
    → IsSound (resume_cancel k o c)
unfolding resume_cancel
resume_cancel-IsSound k none c at h = h
resume_cancel-IsSound k (some run) c at h = go (run == c.runs) (is_running c.task) refl refl
  where
    next : Controller
    next = record c { awaiting = remove_at k c.awaiting }

    same : (ws : List Worker) → All (IsFull c) ws → All (IsFull next) ws
    same [] a = tt
    same (w ∷ ws) a = (a.0, same ws a.1)

    -- Another run's call leaves those of this run.
    others :
        (mine live : Bool)
        → (run == c.runs) ≡ mine
        → is_running c.task ≡ live
        → (mine && live) ≡ false
        → c.requested ≡ true
        → is_running c.task ≡ true
        → 0 < sum_of (awaits c.runs) (remove_at k c.awaiting)
    others true false m l e r t = absurd cc
    others true true m l e r t = absurd cc
    others false live m l e r t =
        let none_taken : awaits c.runs run ≡ 0 = rw m refl in
        omega (arith, h.asked r t, none_taken, sum_of-remove_at (awaits c.runs) k c.awaiting run at)

    as_cancelled : (ws : List Worker) → All (IsFull c) ws → All (IsFull (conclude running next)) ws
    as_cancelled [] a = tt
    as_cancelled (w ∷ ws) a = unfold conclude in (a.0, as_cancelled ws a.1)

    -- A state that is not running stays.
    left :
        c.status.state ≢ running
        → (c.requested ≡ true
            → is_running c.task ≡ true
            → 0 < sum_of (awaits c.runs) (remove_at k c.awaiting))
        → IsSound next
    left other asked = record {
      bounded = h.bounded;
      full = same c.workers h.full;
      live = h.live;
      over = λ r. absurd (other r);
      asked = asked;
      gathers = h.gathers;
      checks = h.checks;
      completes = h.completes;
    }

    concluded :
        (s : State)
        → c.status.state ≡ s
        → (c.requested ≡ true
            → is_running c.task ≡ true
            → 0 < sum_of (awaits c.runs) (remove_at k c.awaiting))
        → IsSound (conclude s next)
    concluded running e asked =
        unfold conclude in
        record {
          bounded = h.bounded;
          full = as_cancelled c.workers h.full;
          live = λ l. inr (refl, l);
          over = λ r. cc;
          asked = asked;
          gathers = h.gathers;
          checks = h.checks;
          completes = λ r. cc;
        }
    concluded idle e asked = unfold conclude in left (λ r. cc) asked
    concluded done e asked = unfold conclude in left (λ r. cc) asked
    concluded cancelled e asked = unfold conclude in left (λ r. cc) asked
    concluded error e asked = unfold conclude in left (λ r. cc) asked

    go :
        (mine live : Bool)
        → (run == c.runs) ≡ mine
        → is_running c.task ≡ live
        → IsSound (if mine && live then c else conclude c.status.state next)
    go true true m l = h
    go true false m l = concluded c.status.state refl (others true false m l refl)
    go false live m l = concluded c.status.state refl (others false live m l refl)
