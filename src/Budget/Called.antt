-- ===== src/Budget/Called.antt =====
-- One state of `BudgetManager` (app/budget_manager.py) comes from another by calls of its methods.
use ai_routing.Prelude.{ℕ, ◌+◌, ◌≤◌, ◌≡◌, refl, sym, ap, subst, ◌∙◌, List, [], ◌∷◌, ◌++◌, arith}
use ai_routing.Budget.Types.{State}
use ai_routing.Budget.History.{
  Call, reserves, commits, rollbacks, expires, step as step_call, run as run_calls, FreshIds,
}
use ai_routing.Budget.Overspend.{commit_count}
use ai_routing.Budget.Overruns.{overruns}

-- `t` comes from `s` by calls of the manager's methods, at most `n` of them commits, and at most `m` of
-- those of more than what was reserved.
pub record Called (n m : ℕ) (s t : State) : Type 0 where
  pub calls : List Call
  pub fresh : FreshIds calls s
  pub few : commit_count calls ≤ n
  pub cheap : overruns calls s ≤ m
  pub reaches : run_calls calls s ≡ t

pub no_call : (n m : ℕ) (s : State) → Called n m s s
unfolding run_calls
no_call n m s = record {
  calls = [];
  fresh = tt;
  few = omega arith;
  cheap = omega arith;
  reaches = refl;
}

run-append :
    (cs ds : List Call) (s : State) → run_calls (cs ++ ds) s ≡ run_calls ds (run_calls cs s)
unfolding run_calls
run-append [] ds s = refl
run-append (c ∷ cs) ds s = run-append cs ds (step_call c s)

FreshIds-append :
    (cs ds : List Call) (s : State)
    → FreshIds cs s
    → FreshIds ds (run_calls cs s)
    → FreshIds (cs ++ ds) s
unfolding run_calls
FreshIds-append [] ds s h k = k
FreshIds-append (c ∷ cs) ds s h k = (h.0, FreshIds-append cs ds (step_call c s) h.1 k)

commit_count-append :
    (cs ds : List Call) → commit_count (cs ++ ds) ≡ commit_count cs + commit_count ds
commit_count-append [] ds = omega arith
commit_count-append (reserves e id cost lat ∷ cs) ds = commit_count-append cs ds
commit_count-append (commits e id cost lat ∷ cs) ds = omega (arith, commit_count-append cs ds)
commit_count-append (rollbacks e id ∷ cs) ds = commit_count-append cs ds
commit_count-append (expires now ∷ cs) ds = commit_count-append cs ds

overruns-append :
    (cs ds : List Call) (s : State)
    → overruns (cs ++ ds) s ≡ overruns cs s + overruns ds (run_calls cs s)
unfolding run_calls
overruns-append [] ds s = omega arith
overruns-append (c ∷ cs) ds s = omega (arith, overruns-append cs ds (step_call c s))

-- One history after another.
pub and_then :
    {n m n' m' : ℕ} (s t u : State)
    → Called n m s t
    → Called n' m' t u
    → Called (n + n') (m + m') s u
and_then {n} {m} {n'} {m'} s t u first second =
    let then_cheap : overruns second.calls (run_calls first.calls s) ≤ m' =
      subst (λ t. overruns second.calls t ≤ m') (sym first.reaches) second.cheap in
    record {
      calls = first.calls ++ second.calls;
      fresh =
          FreshIds-append first.calls second.calls s first.fresh
            (subst (FreshIds second.calls) (sym first.reaches) second.fresh);
      few =
          let a = first.few in
          let b = second.few in omega (arith, a, b, commit_count-append first.calls second.calls);
      cheap =
          let a = first.cheap in
          omega (arith, a, then_cheap, overruns-append first.calls second.calls s);
      reaches =
          run-append first.calls second.calls s
          ∙ ap (run_calls second.calls) first.reaches
          ∙ second.reaches;
    }

pub one_call :
    (n m : ℕ) (c : Call) (s : State)
    → FreshIds (c ∷ []) s
    → commit_count (c ∷ []) ≤ n
    → overruns (c ∷ []) s ≤ m
    → Called n m s (step_call c s)
unfolding run_calls
one_call n m c s fresh few cheap = record {
  calls = c ∷ [];
  fresh = fresh;
  few = few;
  cheap = cheap;
  reaches = refl;
}

-- The bounds may be written in another way, or be larger.
pub weaken :
    {n m : ℕ} (n' m' : ℕ) (s t : State) → n ≤ n' → m ≤ m' → Called n m s t → Called n' m' s t
weaken n' m' s t h k c = record {
  calls = c.calls;
  fresh = c.fresh;
  few = let a = c.few in omega (arith, a, h);
  cheap = let a = c.cheap in omega (arith, a, k);
  reaches = c.reaches;
}
