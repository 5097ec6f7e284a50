-- ===== src/Download/Pool/Tests.antt =====
-- Two requests and two workers, of whom the second waits while the first one fetches.
use c_exercises.Base.{ℕ, zero, suc, true, false, ◌≡◌, refl, none, some, List, [], ◌∷◌, arith}
use c_exercises.Text.{codes}
use c_exercises.Workers.{cond_signal, cond_broadcast}
use c_exercises.Download.Pool.{
  Move, main_moves, works, returns, wakes, main_step, client_worker_job, request_returns, wake_up,
  pop_job, start, create_workers, run,
}
use c_exercises.Download.Pool.Rest.{IsFinished, run-IsFinished}

abbrev two_requests : List (List ℕ)
two_requests = codes "/a" ∷ codes "/b" ∷ []

abbrev schedule : List Move
schedule =
    works 1 0
    ∷ main_moves
    ∷ works 0 0
    ∷ works 1 0
    ∷ wakes 1
    ∷ main_moves
    ∷ returns 0
    ∷ works 0 0
    ∷ works 1 0
    ∷ main_moves
    ∷ main_moves
    ∷ returns 0
    ∷ works 0 1
    ∷ works 1 0
    ∷ main_moves
    ∷ main_moves
    ∷ main_moves
    ∷ []

no_worker_moves : (i k : ℕ) → client_worker_job i k (run schedule (start two_requests 2)) ≡ none
unfolding client_worker_job run main_step pop_job request_returns wake_up cond_signal cond_broadcast
no_worker_moves zero k = refl
no_worker_moves (suc zero) k = refl
no_worker_moves (suc (suc i)) k = refl

main_is_done : main_step (run schedule (start two_requests 2)) ≡ none
unfolding client_worker_job run main_step pop_job request_returns wake_up cond_signal cond_broadcast
main_is_done = refl

nobody_exits : (run schedule (start two_requests 2)).exited ≡ false
unfolding client_worker_job run main_step pop_job request_returns wake_up cond_signal cond_broadcast
nobody_exits = refl

all_made : create_workers (λ i. true) two_requests 2 ≡ some (start two_requests 2)
unfolding create_workers
all_made = refl

run-IsFinished_example : IsFinished two_requests 2 (run schedule (start two_requests 2))
run-IsFinished_example =
    run-IsFinished (λ i. true) two_requests 2 (start two_requests 2) schedule all_made (omega arith)
      nobody_exits main_is_done no_worker_moves
