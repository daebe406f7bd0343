-- ===== src/Budget/Reaper.antt =====
-- What the reaper of app/budget_manager.py (`_expire_stale_reservations`) leaves in the table.
use ai_routing.Prelude.{
  ℕ, ◌≡◌, refl, sym, ap, subst, ◌∙◌, some, false, arith, List, [], ◌∷◌, ◌++◌, map, All, Bool-cases,
  inl, inr, if◌then◌else◌,
}
use mathlib.Core.List.{append_assoc}
use ai_routing.Prelude.Int.{ℤ}
use ai_routing.Budget.Types.{
  State, Reservation, contains, pop, is_expired, lookup_state, rolled_back,
}
use ai_routing.Budget.{drop_clamped, expire_loop, expire_stale_reservations}
use ai_routing.Budget.Table.{IsDistinct, pop-IsDistinct, sum_of}
use ai_routing.Budget.Invariant.{Inv, cost_of, latency_of}
use ai_routing.Budget.Methods.{expire_stale_reservations-Inv}

-- The entries that are older than their time to live, and the others.
abbrev pub stale : ℤ → List Reservation → List Reservation
stale now [] = []
stale now (r ∷ rs) = if is_expired now r then r ∷ stale now rs else stale now rs

abbrev pub live : ℤ → List Reservation → List Reservation
live now [] = []
live now (r ∷ rs) = if is_expired now r then live now rs else r ∷ live now rs

abbrev pub ids : List Reservation → List ℕ
ids = map λ r. r.id

distinct_middle :
    (r : Reservation) (before rest : List Reservation)
    → IsDistinct (before ++ r ∷ rest)
    → contains r.id before ≡ false
distinct_middle r [] rest d = refl
distinct_middle r (x ∷ before) rest d =
    ground (arith, distinct_middle r before rest d.1, contains-middle x.id r before rest)
  where
    contains-middle :
        (j : ℕ) (r : Reservation) (before rest : List Reservation)
        → contains j (before ++ r ∷ rest) ≡ false
        → (j ≡ r.id → ⊥)
    contains-middle j r [] rest h = ground arith
    contains-middle j r (y ∷ before) rest h = ground (arith, contains-middle j r before rest)

pop-middle :
    (r : Reservation) (before rest : List Reservation)
    → contains r.id before ≡ false
    → pop r.id (before ++ r ∷ rest) ≡ before ++ rest
pop-middle r [] rest h = ground arith
pop-middle r (x ∷ before) rest h = ground (arith, pop-middle r before rest)

append-cons :
    (before : List Reservation) (r : Reservation) (rest : List Reservation)
    → before ++ r ∷ rest ≡ (before ++ r ∷ []) ++ rest
append-cons before r rest = sym (append_assoc before (r ∷ []) rest)

-- The table holds what was kept so far and what is still to be read.
table-expire_loop :
    (now : ℤ) (before xs : List Reservation) (s : State)
    → s.active_reservations ≡ before ++ xs
    → IsDistinct (before ++ xs)
    → (expire_loop now xs s).1.active_reservations ≡ before ++ live now xs
unfolding expire_loop
table-expire_loop now before [] s h d = h
table-expire_loop now before (r ∷ xs) s h d = elim (Bool-cases (is_expired now r)) [
  | inl old ↦
      let middle = pop-middle r before xs (distinct_middle r before xs d) in
      rw old (
        table-expire_loop now before xs (drop_clamped rolled_back r s) (ap (pop r.id) h ∙ middle)
          (subst IsDistinct middle (pop-IsDistinct r.id (before ++ r ∷ xs) d)))
  | inr young ↦ rw young (
      table-expire_loop now (before ++ r ∷ []) xs s (h ∙ append-cons before r xs)
        (subst IsDistinct (append-cons before r xs) d)
      ∙ sym (append-cons before r (live now xs)))
]

ids-expire_loop :
    (now : ℤ) (xs : List Reservation) (s : State) → (expire_loop now xs s).0 ≡ ids (stale now xs)
unfolding expire_loop
ids-expire_loop now [] s = refl
ids-expire_loop now (r ∷ xs) s = elim (Bool-cases (is_expired now r)) [
  | inl old ↦ rw old (ap (◌∷◌ r.id) (ids-expire_loop now xs (drop_clamped rolled_back r s)))
  | inr young ↦ rw young (ids-expire_loop now xs s)
]

abbrev pub IsRolledBack : State → Reservation → Type 0
IsRolledBack s r = lookup_state r.id s.states ≡ some rolled_back

keeps-IsRolledBack :
    (now : ℤ) (x : Reservation) (xs : List Reservation) (s : State)
    → IsRolledBack s x
    → IsRolledBack (expire_loop now xs s).1 x
unfolding expire_loop
keeps-IsRolledBack now x [] s h = h
keeps-IsRolledBack now x (r ∷ xs) s h = elim (Bool-cases (is_expired now r)) [
  | inl old ↦ rw old (keeps-IsRolledBack now x xs (drop_clamped rolled_back r s) (ground arith))
  | inr young ↦ rw young (keeps-IsRolledBack now x xs s h)
]

stale-IsRolledBack :
    (now : ℤ) (xs : List Reservation) (s : State)
    → All (IsRolledBack (expire_loop now xs s).1) (stale now xs)
unfolding expire_loop
stale-IsRolledBack now [] s = tt
stale-IsRolledBack now (r ∷ xs) s = elim (Bool-cases (is_expired now r)) [
  | inl old ↦
      let t = drop_clamped rolled_back r s in
      rw old (keeps-IsRolledBack now r xs t (ground arith), stale-IsRolledBack now xs t)
  | inr young ↦ rw young (stale-IsRolledBack now xs s)
]

-- The reaper keeps exactly the reservations that are within their time to live, in their order,
-- returns the ids of the others, marks all of those rolled back, and what remains reserved is the
-- sum of what it kept.
pub expire-live :
    (now : ℤ) (s : State)
    → Inv s
    → let (expired_ids, t) = expire_stale_reservations now s in
      (t.active_reservations ≡ live now s.active_reservations)
      × (expired_ids ≡ ids (stale now s.active_reservations))
      × All (IsRolledBack t) (stale now s.active_reservations)
      × (t.reserved_for_execution ≡ sum_of cost_of (live now s.active_reservations))
      × (t.reserved_latency_ms ≡ sum_of latency_of (live now s.active_reservations))
unfolding expire_stale_reservations
expire-live now s v =
    let table = table-expire_loop now [] s.active_reservations s refl v.distinct in
    let w = expire_stale_reservations-Inv now s v in
    (
      table,
      ids-expire_loop now s.active_reservations s,
      stale-IsRolledBack now s.active_reservations s,
      w.cost_sum ∙ ap (sum_of cost_of) table,
      w.latency_sum ∙ ap (sum_of latency_of) table,
    )
