-- ===== src/LoadGenerator/Timeline.antt =====
-- The timeline that load_generator.py prints of the lock trace of app/budget_manager.py.
use ai_routing.Prelude.{
  ℕ, ◌+◌, ◌-◌, ◌≤◌, ◌≡◌, refl, sym, ap, subst, ◌∙◌, Bool, true, false, Option, none, some, List, [],
  ◌∷◌, ltb, arith, All,
}
use ai_routing.LockTrace.{Trace, Action, acquire, release, Phase}
use ai_routing.Budget.{State}
use ai_routing.Budget.History.{Call, run}
use ai_routing.Budget.Sections.{Alternates, Upto, Orderly, ClockRuns, run-Orderly}
use ai_routing.Observability.{get_lock_trace, insert_by_time}
use ai_routing.Prelude.Int.{ℤ, pos, ◌-ℤ◌}

-- A line of the timeline.
pub record Line : Type 0 where
  pub offset_us : ℤ
  pub request_id : ℕ
  pub indent : ℕ
  pub phase : Phase
  pub action : Action

-- What `indent` is for the line of an event, and after it.
abbrev indent_at : Action → ℕ → ℕ
indent_at release indent = indent - 1
indent_at acquire indent = indent

abbrev indent_after : Action → ℕ → ℕ
indent_after release indent = indent
indent_after acquire indent = indent + 1

unfoldable pub format_lines : ℕ → ℕ → Trace → List Line
format_lines t0 indent [] = []
format_lines t0 indent (e ∷ es) =
    let here = indent_at e.action indent in
    record {
      offset_us = pos e.timestamp_us -ℤ pos t0;
      request_id = e.request_id;
      indent = here;
      phase = e.phase;
      action = e.action;
    }
    ∷ format_lines t0 (indent_after e.action here) es

-- `format_lock_trace`: the lines of the timeline, or none if there are no events.
unfoldable pub format_lock_trace : Trace → Option (List Line)
format_lock_trace [] = none
format_lock_trace (e ∷ es) = some (format_lines e.timestamp_us 0 (e ∷ es))

-- A trace in the order of time is read as it stands.
get_lock_trace-Upto : (now : ℕ) (t : Trace) → Upto now t → get_lock_trace t ≡ t
unfolding get_lock_trace
get_lock_trace-Upto now [] u = refl
get_lock_trace-Upto now (e ∷ es) (le, a, u) =
    ap (insert_by_time e) (get_lock_trace-Upto now es u) ∙ put_first es a
  where
    put_first :
        (es : Trace) → All (λ d. e.timestamp_us ≤ d.timestamp_us) es → insert_by_time e es ≡ e ∷ es
    put_first [] a = refl
    put_first (d ∷ ds) a =
        let after : ltb d.timestamp_us e.timestamp_us ≡ false = let h = a.0 in ground (arith, h) in
        rw after refl

-- The lines of alternating events, from no indent outside of a section and at most 1 inside.
format_lines-flat :
    (inside last : Bool) (t0 indent : ℕ) (t : Trace)
    → Alternates inside t last
    → indent ≤ 1
    → (inside ≡ false → indent ≡ 0)
    → All (λ line. line.indent ≡ 0) (format_lines t0 indent t)
unfolding format_lines
format_lines-flat inside last t0 indent [] h le out = tt
format_lines-flat false last t0 indent (e ∷ es) (same, h) le out = rw same (
  out refl,
  format_lines-flat true last t0 (indent + 1) es h (let z = out refl in omega (arith, z))
      (λ q. absurd (cc)),
)
format_lines-flat true last t0 indent (e ∷ es) (same, h) le out = rw same (
  omega (arith, le),
  format_lines-flat false last t0 (indent - 1) es h (omega (arith, le)) (λ q. omega (arith, le)),
)

-- No line is indented.
abbrev pub IsFlat : Option (List Line) → Type 0
IsFlat none = Unit
IsFlat (some lines) = All (λ line. line.indent ≡ 0) lines

format_lock_trace-IsFlat :
    (inside last : Bool) (t : Trace) → Alternates inside t last → IsFlat (format_lock_trace t)
unfolding format_lock_trace
format_lock_trace-IsFlat inside last [] h = tt
format_lock_trace-IsFlat inside last (e ∷ es) h =
    format_lines-flat inside last e.timestamp_us 0 (e ∷ es) h (omega arith) (λ q. refl)

-- However many calls of the budget manager's methods are made, and in whatever order, the timeline
-- that is printed of their lock trace has no indented line: one critical section ends before the next
-- begins, so that no nesting is ever seen, also when the buffer has lost its oldest entries. The trace
-- was cleared before, and the clock does not run back.
pub timeline-IsFlat :
    (now : ℕ) (cs : List Call) (s : State)
    → ClockRuns now cs
    → s.trace ≡ []
    → IsFlat (format_lock_trace (get_lock_trace (run cs s).trace))
timeline-IsFlat now cs s runs cleared =
    let start : Orderly now false s.trace =
      subst (Orderly now false) (sym cleared)
        (record { first = false; alternates = refl; upto = tt }) in
    let (last, o) = run-Orderly now cs s runs start in
    subst (λ t. IsFlat (format_lock_trace t)) (sym (get_lock_trace-Upto last _ o.upto))
      (format_lock_trace-IsFlat o.first false _ o.alternates)
