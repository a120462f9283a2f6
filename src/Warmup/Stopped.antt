-- ===== src/Warmup/Stopped.antt =====
-- What the cancellation of a run does to its workers.
use llm_kv_passthrough.Prelude.{
  ℕ, ◌≤◌, ◌≡◌, refl, Bool, true, false, not, ◌&&◌, List, [], ◌∷◌, map, ◌==◌, if◌then◌else◌, sum_of,
  arith,
}
use llm_kv_passthrough.Warmup.{stopped, Worker, Controller, is_over, stop, run}
use llm_kv_passthrough.Warmup.Kept.{in_flight, bytes_of, IsFull}

pub in_flight-stop : (run : ℕ) (w : Worker) → in_flight (stop run w) ≤ in_flight w
unfolding stop
in_flight-stop run w = go (w.run == run && not (is_over w.stage))
  where
    go : (b : Bool) → in_flight (if b then record w { stage = stopped } else w) ≤ in_flight w
    go true = omega arith
    go false = omega arith

pub bytes_of-stop : (run : ℕ) (w : Worker) → bytes_of (stop run w) ≡ bytes_of w
unfolding stop
bytes_of-stop run w = go (w.run == run && not (is_over w.stage))
  where
    go : (b : Bool) → bytes_of (if b then record w { stage = stopped } else w) ≡ bytes_of w
    go true = refl
    go false = refl

pub sum_stop :
    (run : ℕ) (ws : List Worker)
    → (sum_of in_flight (map (stop run) ws) ≤ sum_of in_flight ws)
      × (sum_of bytes_of (map (stop run) ws) ≡ sum_of bytes_of ws)
sum_stop run [] = (omega arith, refl)
sum_stop run (w ∷ ws) = (
  omega (arith, in_flight-stop run w, (sum_stop run ws).0),
  omega (arith, bytes_of-stop run w, (sum_stop run ws).1),
)

pub stop-IsFull : (c : Controller) (w : Worker) → IsFull c w → IsFull c (stop c.runs w)
unfolding stop
stop-IsFull c w h = go (w.run == c.runs && not (is_over w.stage))
  where
    go : (b : Bool) → IsFull c (if b then record w { stage = stopped } else w)
    go true = (h.0, λ mine over. cc)
    go false = h
