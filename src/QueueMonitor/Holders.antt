-- ===== src/QueueMonitor/Holders.antt =====
-- Requests that take and give back slots of app/queue_monitor.py in any interleaving.
use ai_routing.Prelude.{
  ℕ, zero, suc, ◌+◌, ◌≤◌, ◌<◌, ◌≡◌, ◌⊎◌, inl, inr, Bool, true, false, some, arith, List, [], ◌∷◌,
  length, Bool-cases, ◌==◌, if◌then◌else◌,
}
use ai_routing.Prelude.Int.{pos}
use ai_routing.QueueMonitor.{QueueMonitor, init, acquire, release, Acquired, returns}
use ai_routing.QueueMonitor.Slots.{Inv, acquire-Inv, release-Inv}

-- The monitor and the requests that hold a slot.
pub record World : Type 0 where
  pub monitor : QueueMonitor
  pub holders : List ℕ

pub data Event : Type 0 where
  enters leaves : ℕ → Event

abbrev pub holds : ℕ → List ℕ → Bool
holds id [] = false
holds id (x ∷ xs) = if id == x then true else holds id xs

abbrev pub remove : ℕ → List ℕ → List ℕ
remove id [] = []
remove id (x ∷ xs) = if id == x then xs else x ∷ remove id xs

abbrev entered : ℕ → Acquired × QueueMonitor → List ℕ → World
entered id (returns true, q) hs = record { monitor = q; holders = id ∷ hs }
entered id (_, q) hs = record { monitor = q; holders = hs }

-- A request enters by `acquire`, and leaves, by `release`, only a slot that it holds.
unfoldable pub step : Event → World → World
step (enters id) w = entered id (acquire w.monitor) w.holders
step (leaves id) w =
    if holds id w.holders
    then record { monitor = release w.monitor; holders = remove id w.holders }
    else w

unfoldable pub run : List Event → World → World
unfolding step
run [] w = w
run (e ∷ es) w = run es (step e w)

-- The count is the number of holders.
pub record Counted (cap : ℕ) (w : World) : Type 0 where
  pub inv : Inv w.monitor
  pub count : w.monitor.active_count ≡ length w.holders
  pub same_cap : w.monitor.max_concurrency ≡ cap

length-remove : (id : ℕ) (hs : List ℕ) → holds id hs ≡ true → length (remove id hs) + 1 ≡ length hs
length-remove id [] h = cc
length-remove id (x ∷ hs) h = ground (arith, length-remove id hs)

step-Counted : (cap : ℕ) (e : Event) (w : World) → Counted cap w → Counted cap (step e w)
unfolding step
step-Counted cap (enters id) w c =
    let a = acquire-Inv w.monitor c.inv in
    elim a.1 [
      | inl free ↦
          rw (free.1, entered)
            (record {
              inv = a.0;
              count = omega (arith, free.2, c.count);
              same_cap = omega (arith, free.3, c.same_cap);
            })
      | inr full ↦
          rw (full.1, full.2, entered)
            (record { inv = c.inv; count = c.count; same_cap = c.same_cap })
    ]
step-Counted cap (leaves id) w c = elim (Bool-cases (holds id w.holders)) [
  | inl held ↦
      let r = release-Inv w.monitor c.inv in
      rw held (record {
        inv = r.0;
        count = omega (arith, r.1, length-remove id w.holders held, c.count);
        same_cap = omega (arith, r.2, c.same_cap);
      })
  | inr other ↦ rw other c
]

run-Counted : (cap : ℕ) (es : List Event) (w : World) → Counted cap w → Counted cap (run es w)
unfolding run
run-Counted cap [] w c = c
run-Counted cap (e ∷ es) w c = run-Counted cap es (step e w) (step-Counted cap e w c)

start :
    (cap : ℕ) (q : QueueMonitor)
    → init (pos cap) ≡ some q
    → Counted cap (record { monitor = q; holders = [] })
unfolding init
start zero q made = absurd (cc)
start (suc n) q made = ground arith

-- In every interleaving of requests on a new monitor, the count is the number of requests that hold
-- a slot and never passes the capacity; and one more request gets a slot exactly when fewer than
-- the capacity hold one.
pub holders_bounded :
    (cap : ℕ) (q : QueueMonitor) (es : List Event)
    → init (pos cap) ≡ some q
    → let w = run es (record { monitor = q; holders = [] }) in
      (w.monitor.active_count ≡ length w.holders)
      × (length w.holders ≤ cap)
      × ((length w.holders < cap × ((acquire w.monitor).0 ≡ returns true))
          ⊎ ((length w.holders ≡ cap) × ((acquire w.monitor).0 ≡ returns false)))
holders_bounded cap q es made =
    let w = run es (record { monitor = q; holders = [] }) in
    let c = run-Counted cap es (record { monitor = q; holders = [] }) (start cap q made) in
    let total = c.inv.total in
    (
      c.count,
      omega (arith, c.count, c.same_cap, total),
      elim (acquire-Inv w.monitor c.inv).1 [
        | inl free ↦ inl (omega (arith, free.0, c.count, c.same_cap), free.1)
        | inr full ↦ inr (omega (arith, full.0, c.count, c.same_cap), full.1)
      ],
    )
