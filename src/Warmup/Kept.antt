-- ===== src/Warmup/Kept.antt =====
-- What every interleaving of a warmup keeps: how far the stores overshoot the target, and that a
-- run ends as done only above it.
use llm_kv_passthrough.Prelude.{
  ℕ, ◌+◌, ◌≤◌, ◌<◌, max, ◌≡◌, ◌⊎◌, ◌≢◌, inl, inr, refl, subst, Bool, true, false, Option, none,
  some, List, [], ◌∷◌, get_elem?, set, ltb, ltb→lt, ltb→le, ◌==◌, if◌then◌else◌, Bool-cases, All,
  All-set, All-get_elem?, sum_of, sum_of-set, get_elem?-set, set-set, arith,
}
use llm_kv_passthrough.Prelude.Result.{Result, ok, err}
use llm_kv_passthrough.Warmup.{
  running, done, cancelled, gathering, checking, Stage, starting, storing, ended, failed, stopped,
  Worker, Controller, is_running, begin, loop_head, count_sequence, turn, work_on, run,
  next_sequence, finish, State,
}

-- The bytes that the store of a worker will add.
abbrev pub in_flight_at : Stage → ℕ → ℕ
in_flight_at storing seq_bytes = seq_bytes
in_flight_at stage seq_bytes = 0

abbrev pub in_flight : Worker → ℕ
in_flight w = in_flight_at w.stage w.seq_bytes

abbrev pub bytes_of : Worker → ℕ
bytes_of w = w.seq_bytes

-- Counts the workers that a run made.
abbrev pub own : ℕ → Worker → ℕ
own run w = if w.run == run then 1 else 0

-- A worker of the current run that left its loop found the target reached.
abbrev pub IsFull : Controller → Worker → Type 0
IsFull c w =
    (w.run ≤ c.runs)
    × (w.run ≡ c.runs → w.stage ≡ ended → c.status.target_bytes ≤ c.status.stored_bytes)

abbrev pub Reached : Controller → Type 0
Reached c = 0 < c.status.concurrency → c.status.target_bytes ≤ c.status.stored_bytes

-- The calls of cancel that await a run.
abbrev pub awaits : ℕ → ℕ → ℕ
awaits run awaited = if awaited == run then 1 else 0

-- What holds between two turns: stored and travelling bytes exceed the target by less than one
-- sequence for each worker task; while the task is not done the state is running, or a call of
-- cancel that awaited another run has set it to cancelled; once it is done, the state is running
-- only while a call of cancel still awaits this run; and a run with a worker that is checked for
-- eviction, or done, has reached its target.
pub record IsSound (c : Controller) : Type 0 where
  pub bounded :
      c.status.stored_bytes + sum_of in_flight c.workers
      < max 1 c.status.target_bytes + sum_of bytes_of c.workers
  pub full : All (IsFull c) c.workers
  pub live :
      is_running c.task ≡ true
      → (c.status.state ≡ running) ⊎ ((c.status.state ≡ cancelled) × (c.overtaken ≡ true))
  pub over :
      c.status.state ≡ running
      → (is_running c.task ≡ true) ⊎ (0 < sum_of (awaits c.runs) c.awaiting)
  pub asked : c.requested ≡ true → is_running c.task ≡ true → 0 < sum_of (awaits c.runs) c.awaiting
  pub gathers : c.task ≡ gathering → 0 < c.status.concurrency → 0 < sum_of (own c.runs) c.workers
  pub checks : (attempts : ℕ) → c.task ≡ checking attempts → Reached c
  pub completes : c.status.state ≡ done → Reached c

in_flight-le : (w : Worker) → in_flight w ≤ bytes_of w
in_flight-le w = go w.stage w.seq_bytes
  where
    go : (s : Stage) (n : ℕ) → in_flight_at s n ≤ n
    go starting n = omega arith
    go storing n = omega arith
    go ended n = omega arith
    go failed n = omega arith
    go stopped n = omega arith

pub sum_in_flight-le : (ws : List Worker) → sum_of in_flight ws ≤ sum_of bytes_of ws
sum_in_flight-le [] = omega arith
sum_in_flight-le (w ∷ ws) = omega (arith, in_flight-le w, sum_in_flight-le ws)

-- A worker is put in another stage: one that stores only below the target, and one that is ended
-- only at the target.
module _ (c : Controller) (k : ℕ) (w : Worker) (s : Stage) where
  pub restage-IsSound :
      (fs : Option (List ℕ)) (n : ℕ)
      → IsSound c
      → get_elem? c.workers k ≡ some w
      → (in_flight_at s w.seq_bytes ≡ 0) ⊎ (c.status.stored_bytes < c.status.target_bytes)
      → (w.run ≡ c.runs → s ≡ ended → c.status.target_bytes ≤ c.status.stored_bytes)
      → IsSound (record c {
        workers = set c.workers k (record w { stage = s });
        first_seq = fs;
        seq_counter = n;
      })
  restage-IsSound fs n h at below reached =
      let w' : Worker = record w { stage = s } in
      let travel = sum_of-set in_flight k c.workers w w' at in
      let total = sum_of-set bytes_of k c.workers w w' at in
      record {
        bounded = elim below [
          | inl e ↦ omega (arith, h.bounded, travel, total, e)
          | inr e ↦ omega (arith, e, total, sum_in_flight-le (set c.workers k w'))
        ];
        full =
            All-set (IsFull c) c.workers k w' h.full
              ((All-get_elem? (IsFull c) c.workers k w h.full at).0, reached);
        live = h.live;
        over = h.over;
        asked = h.asked;
        gathers = λ g some_worker.
            omega (arith, h.gathers g some_worker, sum_of-set (own c.runs) k c.workers w w' at);
        checks = h.checks;
        completes = h.completes;
      }

module _ (k : ℕ) (w : Worker) where
  loop_head-IsSound :
      (drawn : List ℕ) (c : Controller) (ws : List Worker)
      → IsSound (record c { workers = ws })
      → get_elem? ws k ≡ some w
      → (let t = loop_head drawn c in
          IsSound (record t.1 { workers = set ws k (record w { stage = t.0 }) }))
  unfolding loop_head begin
  loop_head-IsSound drawn c ws h at =
      elim (Bool-cases (ltb c.status.stored_bytes c.status.target_bytes)) [
        | inl e ↦ rw e (made (next_sequence (c.seq_counter + 1) drawn) (ltb→lt _ _ e))
        | inr e ↦ rw e (
            restage-IsSound base k w ended c.first_seq c.seq_counter h at (inl refl)
              (λ mine over. ltb→le _ _ e))
      ]
    where
      base : Controller
      base = record c { workers = ws }

      made :
          (r : Result (List ℕ))
          → c.status.stored_bytes < c.status.target_bytes
          → (let t = begin r (record c { seq_counter = c.seq_counter + 1 }) in
              IsSound (record t.1 { workers = set ws k (record w { stage = t.0 }) }))
      made (ok tokens) below =
          restage-IsSound base k w storing _ (c.seq_counter + 1) h at (inr below) (λ mine over. cc)
      made (err e) below =
          restage-IsSound base k w failed c.first_seq (c.seq_counter + 1) h at (inl refl)
            (λ mine over. cc)

  -- The bytes of a store that returned are counted; its worker is at the loop's head.
  counted-IsSound :
      (c : Controller)
      → IsSound c
      → get_elem? c.workers k ≡ some w
      → w.stage ≡ storing
      → IsSound (record (count_sequence w.seq_bytes c) {
        workers = set c.workers k (record w { stage = starting });
      })
  counted-IsSound c h at stores =
      let w' : Worker = record w { stage = starting } in
      let here : in_flight w ≡ w.seq_bytes = rw stores refl in
      record {
        bounded = omega (
          arith,
          h.bounded,
          here,
          sum_of-set in_flight k c.workers w w' at,
          sum_of-set bytes_of k c.workers w w' at,
        );
        full =
            All-set (IsFull (count_sequence w.seq_bytes c)) c.workers k w' (grown c.workers h.full)
              ((All-get_elem? (IsFull c) c.workers k w h.full at).0, λ mine over. cc);
        live = h.live;
        over = h.over;
        asked = h.asked;
        gathers = λ g some_worker.
            omega (arith, h.gathers g some_worker, sum_of-set (own c.runs) k c.workers w w' at);
        checks = λ n e some_worker. omega (arith, h.checks n e some_worker);
        completes = λ e some_worker. omega (arith, h.completes e some_worker);
      }
    where
      grown :
          (ws : List Worker) → All (IsFull c) ws → All (IsFull (count_sequence w.seq_bytes c)) ws
      grown [] a = tt
      grown (v ∷ vs) a = ((a.0.0, λ mine over. omega (arith, a.0.1 mine over)), grown vs a.1)

pub work_on-IsSound :
    (stored : Bool) (drawn : List ℕ) (k : ℕ) (o : Option Worker) (c : Controller)
    → IsSound c
    → get_elem? c.workers k ≡ o
    → IsSound (work_on stored drawn k o c)
unfolding work_on turn
work_on-IsSound stored drawn k none c h at = h
work_on-IsSound stored drawn k (some w) c h at = turned stored w.stage refl
  where
    turned :
        (stored : Bool) (s : Stage)
        → w.stage ≡ s
        → (let t = turn stored drawn w.seq_bytes s c in
            IsSound (record t.1 { workers = set c.workers k (record w { stage = t.0 }) }))
    turned stored starting e = loop_head-IsSound k w drawn c c.workers h at
    turned true storing e =
        let w' : Worker = record w { stage = starting } in
        let once = count_sequence w.seq_bytes c in
        let t = loop_head drawn once in
        subst (λ ws. IsSound (record t.1 { workers = ws }))
          (set-set c.workers k w' (record w { stage = t.0 }))
          (loop_head-IsSound k w' drawn once (set c.workers k w') (counted-IsSound k w c h at e)
            (get_elem?-set c.workers k w' w at))
    turned false storing e =
        restage-IsSound c k w failed c.first_seq c.seq_counter h at (inl refl) (λ mine over. cc)
    turned true ended e =
        restage-IsSound c k w ended c.first_seq c.seq_counter h at (inl refl)
          (λ mine over. (All-get_elem? (IsFull c) c.workers k w h.full at).1 mine e)
    turned false ended e =
        restage-IsSound c k w ended c.first_seq c.seq_counter h at (inl refl)
          (λ mine over. (All-get_elem? (IsFull c) c.workers k w h.full at).1 mine e)
    turned true failed e =
        restage-IsSound c k w failed c.first_seq c.seq_counter h at (inl refl) (λ mine over. cc)
    turned false failed e =
        restage-IsSound c k w failed c.first_seq c.seq_counter h at (inl refl) (λ mine over. cc)
    turned true stopped e =
        restage-IsSound c k w stopped c.first_seq c.seq_counter h at (inl refl) (λ mine over. cc)
    turned false stopped e =
        restage-IsSound c k w stopped c.first_seq c.seq_counter h at (inl refl) (λ mine over. cc)

pub finish-IsSound :
    (s : State) (c : Controller)
    → IsSound c
    → s ≢ running
    → (s ≡ done → Reached c)
    → IsSound (finish s c)
unfolding finish is_running
finish-IsSound s c h over reached = record {
  bounded = h.bounded;
  full = ended_full c.workers h.full;
  live = λ e. cc;
  over = λ e. absurd (over e);
  asked = λ r e. cc;
  gathers = λ e. cc;
  checks = λ n e. cc;
  completes = λ e. reached e;
}
  where
    ended_full : (ws : List Worker) → All (IsFull c) ws → All (IsFull (finish s c)) ws
    ended_full [] a = tt
    ended_full (w ∷ ws) a = (a.0, ended_full ws a.1)
