-- ===== src/Backends/Retries.antt =====
-- The attempts of `_execute_tokenrouter_request` (app/backends.py) under the library that repeats it:
-- `stop_after_attempt(3)`, `retry_if_exception_type(TransientRemoteError)` and `reraise=True`.
use ai_routing.Prelude.{ℕ, zero, suc, ◌≤◌, ◌<◌, ◌≡◌, refl, ap, ◌∙◌, Bool, true, false, arith, leb}
use ai_routing.App.{gives}
use ai_routing.Mocks.{Prices}
use ai_routing.Backends.{
  Sent, replies, Reply, parsed, RemoteData, Attempt, responds, transient, is_transient_status,
  execute_request, after_attempts, call_tokenrouter, remote_result,
}

abbrev pub is_transient : Attempt → Bool
is_transient (transient text) = true
is_transient _ = false

-- What the library's documentation says of the decorator: an attempt that does not raise a
-- `TransientRemoteError` ends the loop, and so does the third.
pub record StopsAfterThree (retry : (ℕ → Attempt) → Attempt) : Type 0 where
  pub at_first : (f : ℕ → Attempt) → is_transient (f 0) ≡ false → retry f ≡ f 0
  pub at_second :
      (f : ℕ → Attempt) → is_transient (f 0) ≡ true → is_transient (f 1) ≡ false → retry f ≡ f 1
  pub at_third :
      (f : ℕ → Attempt) → is_transient (f 0) ≡ true → is_transient (f 1) ≡ true → retry f ≡ f 2

-- A reply that is no error is no reason to try again.
good_reply :
    (r : Reply RemoteData) → leb 400 r.status ≡ false → execute_request (replies r) ≡ responds r
unfolding execute_request
good_reply r h =
    let settled : is_transient_status r.status ≡ false = ground (arith, h) in rw settled refl

retried :
    (retry : (ℕ → Attempt) → Attempt) (f : ℕ → Attempt) (n : ℕ)
    → StopsAfterThree retry
    → n ≤ 2
    → ((m : ℕ) → m < n → is_transient (f m) ≡ true)
    → is_transient (f n) ≡ false
    → retry f ≡ f n
retried retry f zero law le before here = law.at_first f here
retried retry f (suc zero) law le before here = law.at_second f (before 0 (omega arith)) here
retried retry f (suc (suc zero)) law le before here =
    law.at_third f (before 0 (omega arith)) (before 1 (omega arith))
retried retry f (suc (suc (suc n))) law le before here = absurd (omega (arith, le))

-- A remote call survives up to two transient failures: if the attempts before some attempt, of the
-- first three, fail with a transient status, a timeout or a refused connection, and that one gets a
-- reply that is no error, then the call gives the result of that reply, whatever the later attempts
-- would have met. The library that repeats the attempts does what its documentation says.
pub recovers :
    (retry : (ℕ → Attempt) → Attempt) (p : Prices) (elapsed n : ℕ) (sent : ℕ → Sent RemoteData)
    (r : Reply RemoteData) (d : RemoteData)
    → StopsAfterThree retry
    → n ≤ 2
    → ((m : ℕ) → m < n → is_transient (execute_request (sent m)) ≡ true)
    → sent n ≡ replies r
    → leb 400 r.status ≡ false
    → r.json ≡ parsed d
    → call_tokenrouter retry p elapsed false sent ≡ gives (remote_result p elapsed d)
unfolding call_tokenrouter after_attempts
recovers retry p elapsed n sent r d law le before reply good json =
    let answered : execute_request (sent n) ≡ responds r =
      ap execute_request reply ∙ good_reply r good in
    let last : retry (λ m. execute_request (sent m)) ≡ responds r =
      retried retry (λ m. execute_request (sent m)) n law le before (ap is_transient answered)
      ∙ answered in
    rw (last, good, json) refl
