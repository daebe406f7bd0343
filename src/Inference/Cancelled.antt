-- ===== src/Inference/Cancelled.antt =====
-- A cancellation in the handler of POST /inference (app/main.py): no handler of exceptions sees it.
use ai_routing.Prelude.{ℕ, ◌≡◌, refl, ap, ◌∙◌, true, false, not, some, List, [], ◌∷◌, arith}
use ai_routing.Prelude.Int.{ℤ}
use ai_routing.Budget.{Reservation, find, contains, is_expired, expire_stale_reservations}
use ai_routing.Budget.Table.{IsDistinct}
use ai_routing.Budget.Reaper.{live, expire-live}
use ai_routing.Decision.{RoutingDecision}
use ai_routing.App.{
  App, IncomingRequest, SettleEnvs, fails, cancelled, answers, unhandled, cancelled_error,
}
use ai_routing.Settlement.Accounts.{AppInv, active}
use ai_routing.Settlement.{on_failure}
use ai_routing.Inference.{resume_remote}

absent-live :
    (now : ℤ) (id : ℕ) (rs : List Reservation)
    → contains id rs ≡ false
    → contains id (live now rs) ≡ false
absent-live now id [] h = refl
absent-live now id (r ∷ rs) h = ground (arith, absent-live now id rs)

contains-live :
    (now : ℤ) (id : ℕ) (r : Reservation) (rs : List Reservation)
    → IsDistinct rs
    → find id rs ≡ some r
    → contains id (live now rs) ≡ not (is_expired now r)
contains-live now id r [] d h = absurd (cc)
contains-live now id r (x ∷ rs) d h =
    ground (arith, contains-live now id r rs d.1, absent-live now id rs)

-- A cancellation while the remote backend runs leaves the handler with the cancellation itself, and
-- the request's active reservation as it was: not rolled back. The reaper takes it out once it is
-- older than its time to live, and not before.
pub cancelled_until_reaped :
    (es : SettleEnvs) (request : IncomingRequest) (d : RoutingDecision) (r : Reservation)
    (app : App)
    → AppInv app
    → d.reservation ≡ some r
    → find r.id app.budget.active_reservations ≡ some r
    → let (stage, after) = resume_remote es request d (fails cancelled) app in
      (stage ≡ answers (unhandled cancelled_error))
      × (active r.id after ≡ true)
      × ((now : ℤ)
          → contains r.id (expire_stale_reservations now after.budget).1.active_reservations
            ≡ not (is_expired now r))
unfolding resume_remote on_failure
cancelled_until_reaped es request d r app v carried found = (
  refl,
  ground arith,
  λ now.
      ap (contains r.id) (expire-live now app.budget v.budget).0
      ∙ contains-live now r.id r app.budget.active_reservations v.budget.distinct found,
)
