-- ===== src/Observability/Traces.antt =====
-- The lock trace of app/observability.py over whole histories, and its reading by time.
use ai_routing.Prelude.{
  ℕ, ◌-◌, ◌≤◌, ◌≡◌, sym, ap, ◌∙◌, inl, inr, List, [], ◌∷◌, ◌++◌, length, last, ltb, leb, arith,
  Bool-cases, All, length-append, drop-append, last-all, last-append-last, length-last-le,
}
use mathlib.Core.List.{Perm, append_assoc, append-nil}
use mathlib.Core.List.Perm.{
  cons as Perm_cons, swap as Perm_swap, trans as Perm_trans, refl as Perm_refl,
}
use ai_routing.LockTrace.{LockEvent, Trace, lock_event, max_trace_entries}
use ai_routing.Observability.{get_lock_trace, insert_by_time}

-- The calls of `lock_event`, in order.
unfoldable pub log_all : List LockEvent → Trace → Trace
log_all [] trace = trace
log_all (e ∷ es) trace = log_all es (lock_event e.timestamp_us e.request_id e.phase e.action trace)

lock_event-last :
    (e : LockEvent) (trace : Trace)
    → length trace ≤ max_trace_entries
    → lock_event e.timestamp_us e.request_id e.phase e.action trace
      ≡ last max_trace_entries (trace ++ (e ∷ []))
unfolding lock_event
lock_event-last e trace h = elim (Bool-cases (leb max_trace_entries (length trace))) [
  | inl full ↦
      let one : length (trace ++ (e ∷ [])) - max_trace_entries ≡ 1 =
        ground (arith, length-append trace (e ∷ [])) in
      rw (full, one) (sym (drop-append 1 trace (e ∷ []) (ground arith)))
  | inr room ↦
      let fits : length (trace ++ (e ∷ [])) ≤ max_trace_entries =
        ground (arith, length-append trace (e ∷ [])) in
      rw room (sym (last-all max_trace_entries (trace ++ (e ∷ [])) fits))
]

log_all_from :
    (es before : List LockEvent)
    → log_all es (last max_trace_entries before) ≡ last max_trace_entries (before ++ es)
unfolding log_all
log_all_from [] before = ap (last max_trace_entries) (sym (append-nil before))
log_all_from (e ∷ es) before =
    ap (log_all es) (
      lock_event-last e (last max_trace_entries before) (length-last-le max_trace_entries before)
      ∙ last-append-last max_trace_entries before (e ∷ []))
    ∙ log_all_from es (before ++ (e ∷ []))
    ∙ ap (last max_trace_entries) (append_assoc before (e ∷ []) es)

-- After any calls of `lock_event` on an empty trace, it holds exactly the last 4096 of the events, in
-- order.
pub log_all-last : (es : List LockEvent) → log_all es [] ≡ last max_trace_entries es
log_all-last es =
    ap (log_all es) (sym (last-all max_trace_entries [] (omega arith))) ∙ log_all_from es []

-- Every entry is no later than those that follow it.
abbrev pub IsSorted : Trace → Type 0
IsSorted [] = Unit
IsSorted (e ∷ es) = All (λ d. e.timestamp_us ≤ d.timestamp_us) es × IsSorted es

insert-All :
    (n : ℕ) (e : LockEvent) (es : Trace)
    → n ≤ e.timestamp_us
    → All (λ d. n ≤ d.timestamp_us) es
    → All (λ d. n ≤ d.timestamp_us) (insert_by_time e es)
insert-All n e [] h a = (h, tt)
insert-All n e (d ∷ ds) h a = ground (arith, insert-All n e ds)

All-le :
    (m n : ℕ) (es : Trace)
    → m ≤ n
    → All (λ d. n ≤ d.timestamp_us) es
    → All (λ d. m ≤ d.timestamp_us) es
All-le m n [] h a = tt
All-le m n (d ∷ ds) h a = (omega (arith, h, a.0), All-le m n ds h a.1)

insert-IsSorted : (e : LockEvent) (es : Trace) → IsSorted es → IsSorted (insert_by_time e es)
insert-IsSorted e [] s = (tt, tt)
insert-IsSorted e (d ∷ ds) s = elim (Bool-cases (ltb d.timestamp_us e.timestamp_us)) [
  | inl before ↦
      rw before
        (insert-All d.timestamp_us e ds (ground (arith, before)) s.0, insert-IsSorted e ds s.1)
  | inr after ↦
      let le : e.timestamp_us ≤ d.timestamp_us = ground (arith, after) in
      rw after ((le, All-le e.timestamp_us d.timestamp_us ds le s.0), s)
]

insert-Perm : (e : LockEvent) (es : Trace) → Perm (insert_by_time e es) (e ∷ es)
insert-Perm e [] = Perm_refl (e ∷ [])
insert-Perm e (d ∷ ds) = elim (Bool-cases (ltb d.timestamp_us e.timestamp_us)) [
  | inl before ↦ rw before (Perm_trans (Perm_cons d (insert-Perm e ds)) (Perm_swap e d ds))
  | inr after ↦ rw after (Perm_refl (e ∷ d ∷ ds))
]

-- `get_lock_trace` gives the events of the trace, each as often as it stands there, ordered by time.
pub get_lock_trace-IsSorted :
    (trace : Trace) → IsSorted (get_lock_trace trace) × Perm (get_lock_trace trace) trace
unfolding get_lock_trace
get_lock_trace-IsSorted [] = (tt, Perm_refl [])
get_lock_trace-IsSorted (e ∷ es) =
    let (sorted, same) = get_lock_trace-IsSorted es in
    (
      insert-IsSorted e (get_lock_trace es) sorted,
      Perm_trans (insert-Perm e (get_lock_trace es)) (Perm_cons e same),
    )
