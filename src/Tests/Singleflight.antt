-- ===== src/Tests/Singleflight.antt =====
-- Three goroutines ask for key 7, and then a fourth after the first is gone.
use gocc.Prelude.{ℕ, ◌≤◌, ◌≡◌, refl, List, [], ◌∷◌, total, ℕ_discrete}
use gocc.Prelude.Dict.{lookup, insert, delete}
use gocc.Cache.Singleflight.{
  Event, in_func, returned, begins, fn_returns, wakes, removes, new_singleflight, return_at,
  wake_at, begin_at, remove_at, step, run,
}
use gocc.Cache.Singleflight.Exclusion.{present, executes, one_execution}

abbrev shared_call : List (Event ℕ ℕ)
shared_call =
    begins 7
    ∷ begins 7
    ∷ begins 7
    ∷ wakes 1
    ∷ fn_returns 0 5
    ∷ wakes 1
    ∷ removes 0
    ∷ begins 7
    ∷ wakes 2
    ∷ []

shared_call_routines :
    (run ℕ_discrete new_singleflight shared_call).routines
    ≡ returned 0 5 ∷ returned 0 5 ∷ returned 0 5 ∷ in_func 7 1 ∷ []
unfolding run step new_singleflight return_at wake_at begin_at remove_at lookup insert delete
    ℕ_discrete
shared_call_routines = refl

one_execution_example :
    (total (executes ℕ_discrete 7) (run ℕ_discrete new_singleflight shared_call).routines ≤ 1)
    × (total (executes ℕ_discrete 7) (run ℕ_discrete new_singleflight shared_call).routines
        ≤ present
            (lookup ℕ_discrete 7 (run {R = ℕ} ℕ_discrete new_singleflight shared_call).inflight))
one_execution_example = one_execution ℕ_discrete 7 shared_call
