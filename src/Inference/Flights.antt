-- ===== src/Inference/Flights.antt =====
-- Any number of requests in the handler of POST /inference (app/main.py) at once: their steps in any
-- interleaving, with the reaper's.
pub mod Balance
pub mod Released
pub mod History
pub mod Rank
pub mod Drain
pub mod Priced
pub mod Cheap
use ai_routing.Prelude.{ℕ, zero, suc, ◌+◌, ◌≢◌, ◌≡◌, Bool, false, ◌||◌, List, [], ◌∷◌, ◌++◌}
use ai_routing.Prelude.Int.{ℤ}
use ai_routing.Budget.{Env, expire_stale_reservations}
use ai_routing.Decision.{Envs}
use ai_routing.Decision.Ledger.{FreshEnvs}
use ai_routing.App.{
  App, IncomingRequest, BackendOutcome, Stage, executing_remote, executing_local,
  executing_fallback, waits, answers, SettleEnvs,
}
use ai_routing.Settlement.Accounts.{slots, keeps_id}
use ai_routing.Inference.{receive, resume_remote, resume_local, resume_fallback}
use ai_routing.Inference.Resumption.{Ends}

-- A request and where its handler stands.
pub record Flight : Type 0 where
  pub request : IncomingRequest
  pub stage : Stage

-- The requests, the newest first.
pub record World : Type 0 where
  pub app : App
  pub flights : List Flight

pub data Event : Type 0 where
  arrives : ℤ → Envs → Env → IncomingRequest → Event
  -- the backend's call of the request at a position ends
  ends : ℕ → SettleEnvs → BackendOutcome → Event
  reaps : ℤ → Event

-- The step of a handler when its backend's call ends.
abbrev pub resume : SettleEnvs → BackendOutcome → IncomingRequest → Stage → App → Stage × App
resume es outcome request (executing_remote d) app = resume_remote es request d outcome app
resume es outcome request (executing_local d) app = resume_local es request d outcome app
resume es outcome request executing_fallback app = resume_fallback request outcome app
resume es outcome request waits app = (waits, app)
resume es outcome request (answers r) app = (answers r, app)

abbrev pub advance : ℕ → SettleEnvs → BackendOutcome → List Flight → App → List Flight × App
advance i es outcome [] app = ([], app)
advance zero es outcome (f ∷ fs) app =
    let (stage, app') = resume es outcome f.request f.stage app in
    (record f { stage = stage } ∷ fs, app')
advance (suc i) es outcome (f ∷ fs) app =
    let (fs', app') = advance i es outcome fs app in (f ∷ fs', app')

unfoldable pub step : Event → World → World
step (arrives cost es e request) w =
    let (stage, app) = receive cost es e request w.app in
    record { app = app; flights = record { request = request; stage = stage } ∷ w.flights }
step (ends i es outcome) w =
    let (flights, app) = advance i es outcome w.flights w.app in
    record { app = app; flights = flights }
step (reaps now) w = record w {
  app = record (w.app) { budget = (expire_stale_reservations now w.app.budget).1 };
}

unfoldable pub run : List Event → World → World
unfolding step
run [] w = w
run (e ∷ es) w = run es (step e w)

-- New requests get new uuids, and no call is cancelled.
abbrev pub Allowed : Event → World → Type 0
Allowed (arrives cost es e request) w = FreshEnvs es w.app.budget
Allowed (ends i es outcome) w = Ends outcome
Allowed (reaps now) w = Unit

abbrev pub AllAllowed : List Event → World → Type 0
AllAllowed [] w = Unit
AllAllowed (e ∷ es) w = Allowed e w × AllAllowed es (step e w)

-- The slots that the requests hold together.
abbrev pub slots_held : List Flight → ℕ
slots_held [] = 0
slots_held (f ∷ fs) = slots f.stage + slots_held fs

-- One of the requests will settle the reservation.
abbrev pub is_kept : List Flight → ℕ → Bool
is_kept [] j = false
is_kept (f ∷ fs) j = keeps_id f.stage j || is_kept fs j

-- No handler waits for the semaphore under the queue's lock.
abbrev pub NoneWaits : List Flight → Type 0
NoneWaits [] = Unit
NoneWaits (f ∷ fs) = (f.stage ≢ waits) × NoneWaits fs
