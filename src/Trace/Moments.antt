-- ===== src/Trace/Moments.antt =====
-- The moments of a trace: whole microseconds, negative for what began before the recorder.
use llm_kv_passthrough.Prelude.{ℕ, ◌-◌, Bool, true, false, ltb, leb, if◌then◌else◌, ◌≡◌, arith}
use llm_kv_passthrough.Prelude.Int.{ℤ, pos, negsuc}
use llm_kv_passthrough.Trace.Concurrency.{TimeLine}

-- a - b
unfoldable pub minus : ℕ → ℕ → ℤ
minus a b = if leb b a then pos (a - b) else negsuc (b - a - 1)

unfoldable pub earlier : ℤ → ℤ → Bool
earlier (pos a) (pos b) = ltb a b
earlier (pos a) (negsuc b) = false
earlier (negsuc a) (pos b) = true
earlier (negsuc a) (negsuc b) = ltb b a

pub earlier_asymmetric : (a b : ℤ) → earlier a b ≡ true → earlier b a ≡ false
unfolding earlier
earlier_asymmetric (pos a) (pos b) h = ground arith
earlier_asymmetric (pos a) (negsuc b) h = ground arith
earlier_asymmetric (negsuc a) (pos b) h = ground arith
earlier_asymmetric (negsuc a) (negsuc b) h = ground arith

pub earlier_reaches : (a b c : ℤ) → earlier a b ≡ true → earlier c b ≡ false → earlier a c ≡ true
unfolding earlier
earlier_reaches (pos a) (pos b) (pos c) h k = ground arith
earlier_reaches (pos a) (pos b) (negsuc c) h k = ground arith
earlier_reaches (pos a) (negsuc b) c h k = ground arith
earlier_reaches (negsuc a) (pos b) (pos c) h k = ground arith
earlier_reaches (negsuc a) (pos b) (negsuc c) h k = ground arith
earlier_reaches (negsuc a) (negsuc b) (pos c) h k = ground arith
earlier_reaches (negsuc a) (negsuc b) (negsuc c) h k = ground arith

abbrev pub moments : TimeLine ℤ
moments = record { before = earlier; asymmetric = earlier_asymmetric; reaches = earlier_reaches }

-- An operation does not end before it starts.
pub ends_after : (mono dur : ℕ) → earlier (pos mono) (minus mono dur) ≡ false
unfolding earlier minus
ends_after mono dur = ground arith
