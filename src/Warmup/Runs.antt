-- ===== src/Warmup/Runs.antt =====
-- The turns of start, _run, the eviction check and cancel keep what Kept states.
use llm_kv_passthrough.Prelude.{
  ℕ, zero, suc, ◌*◌, ◌≡◌, inl, inr, refl, sym, ap, subst, Bool, true, false, not, Option, none,
  some, List, [], ◌∷◌, replicate, ==_iff, All, All-replicate, All-append, sum_of, sum_of-append,
  arith,
}
use llm_kv_passthrough.Prelude.Result.{
  ok, err, runtime_error, Result-cases, ok-injective, >>=-eq-ok, guard,
}
use llm_kv_passthrough.Warmup.{
  WarmupRequest, Capacity, Task, no_task, created, gathering, finished, checking, starting, Worker,
  Controller, is_running, start, started, enter, after, capacity_info, target_bytes_of, or_else,
}
use llm_kv_passthrough.Warmup.Kept.{in_flight, bytes_of, own, IsFull, IsSound, sum_in_flight-le}

pub started-IsSound :
    (request : WarmupRequest) (capacity : Capacity) (target : ℕ) (c : Controller)
    → IsSound c
    → IsSound (started request capacity target c)
unfolding started is_running
started-IsSound request capacity target c h = record {
  bounded = omega (arith, sum_in_flight-le c.workers);
  full = older c.workers h.full;
  live = λ e. inl refl;
  over = λ e. inl refl;
  asked = λ e. cc;
  gathers = λ e. cc;
  checks = λ n e. cc;
  completes = λ e. cc;
}
  where
    older :
        (ws : List Worker) → All (IsFull c) ws → All (IsFull (started request capacity target c)) ws
    older [] a = tt
    older (w ∷ ws) a =
        let b = a.0.0 in ((omega arith, λ mine over. absurd (omega arith)), older ws a.1)

-- What start did when it returned.
pub record Started (request : WarmupRequest) (info : Option Capacity) (c next : Controller)
    : Type 0 where
  pub free : is_running c.task ≡ false
  pub capacity : Capacity
  pub known : info ≡ some capacity
  pub target : ℕ
  pub asked :
      target_bytes_of request.target request.fill (or_else capacity.total_capacity_bytes 0)
      ≡ ok target
  pub made : next ≡ started request capacity target c

pub start-eq-ok :
    (request : WarmupRequest) (info : Option Capacity) (c next : Controller)
    → start request info c ≡ ok next
    → Started request info c next
unfolding start capacity_info
start-eq-ok request info c next e =
    let (_, passed, asked) = >>=-eq-ok (guard (not (is_running c.task)) runtime_error) _ e in
    let (capacity, known, rest) = >>=-eq-ok (capacity_info info) _ asked in
    let (target, found, made) =
      >>=-eq-ok
        (target_bytes_of request.target request.fill (or_else capacity.total_capacity_bytes 0)) _
        rest in
    record {
      free = not_running (is_running c.task) passed;
      capacity = capacity;
      known = present info known;
      target = target;
      asked = found;
      made = sym (ok-injective made);
    }
  where
    not_running : (b : Bool) {u : Unit {0}} → guard (not b) runtime_error ≡ ok u → b ≡ false
    not_running true p = cc
    not_running false p = refl

    present :
        (info : Option Capacity) {capacity : Capacity}
        → capacity_info info ≡ ok capacity
        → info ≡ some capacity
    present none p = let q : err runtime_error ≡ ok _ = p in cc
    present (some k) p = ap some (ok-injective p)

pub start-IsSound :
    (request : WarmupRequest) (info : Option Capacity) (c : Controller)
    → IsSound c
    → IsSound (after c (start request info c))
start-IsSound request info c h = elim (Result-cases (start request info c)) [
  | inl (next, e) ↦
      let s = start-eq-ok request info c next e in
      rw e (subst IsSound (sym s.made) (started-IsSound request s.capacity s.target c h))
  | inr (raised, e) ↦ rw e h
]

pub enter-IsSound : (t : Task) (c : Controller) → c.task ≡ t → IsSound c → IsSound (enter t c)
unfolding enter is_running
enter-IsSound no_task c e h = h
enter-IsSound gathering c e h = h
enter-IsSound finished c e h = h
enter-IsSound (checking n) c e h = h
enter-IsSound created c e h =
    let s = c.status.seq_tokens * c.status.bytes_per_token in
    let w : Worker = record { run = c.runs; seq_bytes = s; stage = starting } in
    let ws = replicate c.status.concurrency w in
    record {
      bounded = omega (
        arith,
        h.bounded,
        sum_of-append in_flight c.workers ws,
        sum_of-append bytes_of c.workers ws,
        at_rest c.status.concurrency w refl,
      );
      full =
          All-append (IsFull c) c.workers ws h.full
            (All-replicate (IsFull c) c.status.concurrency w (omega arith, λ mine over. cc));
      live = λ r. h.live (rw e refl);
      over = λ r. inl refl;
      asked = λ r live. h.asked r (rw e refl);
      gathers = λ g some_worker.
          omega
            (arith, sum_of-append (own c.runs) c.workers ws, all_own c.status.concurrency w refl);
      checks = λ n g. cc;
      completes = h.completes;
    }
  where
    at_rest : (n : ℕ) (w : Worker) → w.stage ≡ starting → sum_of in_flight (replicate n w) ≡ 0
    at_rest zero w e = refl
    at_rest (suc n) w e = let k : in_flight w ≡ 0 = rw e refl in omega (arith, at_rest n w e, k)

    all_own : (n : ℕ) (w : Worker) → w.run ≡ c.runs → sum_of (own c.runs) (replicate n w) ≡ n
    all_own zero w e = refl
    all_own (suc n) w e =
        let k : own c.runs w ≡ 1 = rw ((==_iff w.run c.runs).1 e) refl in
        omega (arith, all_own n w e, k)
