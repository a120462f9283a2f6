-- ===== src/Trace/Load.antt =====
-- load_events of src/kvbench/trace/analyze.py: the lines of a trace file, each stripped and
-- decoded; blank lines and lines that do not decode are left out. Python opens the file with
-- universal newlines: a carriage return ends a line as well, and the blank line that the pair of
-- both leaves here is one of those left out.
use llm_kv_passthrough.Prelude.{
  ℕ, ◌≡◌, ◌≢◌, refl, subst, sym, ap, ◌∙◌, Bool, true, ◌||◌, none, some, List, [], ◌∷◌, ◌++◌, ◌==◌,
  All, All-append, if◌then◌else◌, Text, arith,
}
use llm_kv_passthrough.Prelude.Int.{strip_left, strip_right, is_space}
use llm_kv_passthrough.Trace.{TraceEvent, Json, Act, Clock, Recorder, open_trace, line_of, run}
use llm_kv_passthrough.Trace.Log.{encode, empty_log, log_run}
use llm_kv_passthrough.Trace.Refine.{run-Refines}
use mathlib.Core.List.{append_assoc, append-nil}

unfoldable pub ends_line : ℕ → Bool
ends_line c = c == 10 || c == 13

abbrev pub onto_first : ℕ → List Text → List Text
onto_first c [] = (c ∷ []) ∷ []
onto_first c (l ∷ ls) = (c ∷ l) ∷ ls

unfoldable pub lines : Text → List Text
unfolding ends_line
lines [] = [] ∷ []
lines (c ∷ cs) = let rest = lines cs in if ends_line c then [] ∷ rest else onto_first c rest

-- One line: nothing, or the event that it holds.
unfoldable pub decode_stripped : Json → Text → List TraceEvent
decode_stripped json [] = []
decode_stripped json (c ∷ cs) = elim (json.loads (c ∷ cs)) [ none ↦ [] | some e ↦ e ∷ [] ]

unfoldable pub decode_line : Json → Text → List TraceEvent
unfolding decode_stripped strip_left strip_right
decode_line json line = decode_stripped json (strip_left (strip_right line))

unfoldable pub decode_lines : Json → List Text → List TraceEvent
unfolding decode_line
decode_lines json [] = []
decode_lines json (l ∷ ls) = decode_line json l ++ decode_lines json ls

unfoldable pub load_events : Json → Text → List TraceEvent
unfolding decode_lines lines
load_events json t = decode_lines json (lines t)

-- What the program relies on for an event: json.dumps writes an object on one line, and
-- json.loads reads the event back.
pub record ReadsBack (json : Json) (e : TraceEvent) : Type 0 where
  pub body : Text
  pub object : json.dumps e ≡ b'{' ∷ body ++ b'}' ∷ []
  pub one_line : All (λ c. (c ≢ 10) × (c ≢ 13)) body
  pub decodes : json.loads (json.dumps e) ≡ some e

lines-line :
    (t rest : Text) → All (λ c. (c ≢ 10) × (c ≢ 13)) t → lines (t ++ 10 ∷ rest) ≡ t ∷ lines rest
unfolding lines ends_line
lines-line [] rest h = refl
lines-line (c ∷ cs) rest h = rw (lines-line cs rest h.1, lines) (ground (arith, h.0))

strip_right-closed : (t : Text) → strip_right (t ++ b'}' ∷ []) ≡ t ++ b'}' ∷ []
unfolding strip_right is_space
strip_right-closed [] = refl
strip_right-closed (c ∷ []) = refl
strip_right-closed (c ∷ d ∷ ds) = rw (strip_right-closed (d ∷ ds), strip_right) refl

decode_line-dumps :
    (json : Json) (e : TraceEvent) → ReadsBack json e → decode_line json (json.dumps e) ≡ e ∷ []
unfolding decode_line decode_stripped strip_left is_space
decode_line-dumps json e h =
    let back : json.loads (b'{' ∷ h.body ++ b'}' ∷ []) ≡ some e =
      ap json.loads (sym h.object) ∙ h.decodes in
    rw (h.object, strip_right-closed (b'{' ∷ h.body), back) refl

lines-dumps :
    (json : Json) (e : TraceEvent) (rest : Text)
    → ReadsBack json e
    → lines (line_of json e ++ rest) ≡ json.dumps e ∷ lines rest
lines-dumps json e rest h =
    let no_end : All (λ c. (c ≢ 10) × (c ≢ 13)) (json.dumps e) =
      subst (All (λ c. (c ≢ 10) × (c ≢ 13))) (sym h.object) (
        (omega arith, omega arith),
        All-append (λ c. (c ≢ 10) × (c ≢ 13)) h.body (b'}' ∷ []) h.one_line
            ((omega arith, omega arith), tt),
      ) in
    ap lines (append_assoc (json.dumps e) (10 ∷ []) rest) ∙ lines-line (json.dumps e) rest no_end

load_events-encode :
    (json : Json) (es : List TraceEvent)
    → All (ReadsBack json) es
    → load_events json (encode json es) ≡ es
unfolding load_events encode lines decode_lines decode_line strip_right strip_left decode_stripped
load_events-encode json [] h = refl
load_events-encode json (e ∷ es) h =
    ap (decode_lines json) (lines-dumps json e (encode json es) h.0)
    ∙ ap (λ d. d ++ load_events json (encode json es)) (decode_line-dumps json e h.0)
    ∙ ap (λ rest. e ∷ rest) (load_events-encode json es h.1)

-- Once the recorder is closed, the trace file reads back as exactly the recorded events, in their
-- order, if JSON reads each of them back.
pub load_events-run :
    (json : Json) (acts : List Act) (wall_us : ℕ) (clock : Clock)
    → (log_run acts (empty_log wall_us clock)).ended ≡ true
    → All (ReadsBack json) (log_run acts (empty_log wall_us clock)).events
    → load_events json (run json acts (open_trace wall_us clock)).disk
      ≡ (log_run acts (empty_log wall_us clock)).events
load_events-run json acts wall_us clock ended back =
    let h = run-Refines json acts wall_us clock in
    let r : Recorder = run json acts (open_trace wall_us clock) in
    let all : r.disk ≡ encode json (log_run acts (empty_log wall_us clock)).events =
      sym (append-nil r.disk)
      ∙ ap (λ t. r.disk ++ t) (sym (h.on_disk (h.ends ∙ ended)))
      ∙ h.written in
    ap (load_events json) all ∙ load_events-encode json _ back
