-- ===== src/FileServer/Starting/Tests.antt =====
-- Two workers, three requests, and the program's exit.
use c_exercises.Base.{ℕ, zero, suc, ◌≡◌, refl, true, false, none, some, List, [], ◌∷◌}
use c_exercises.Text.{codes}
use c_exercises.Workers.{cond_signal, cond_broadcast}
use c_exercises.FileServer.{Job, server_worker_job, gfs_handler, cleanup_threads}
use c_exercises.FileServer.Threads.{
  ServerThreads, first_state, worker_step, request_step, exit_step, join_step, Move, requests,
  works, wakes, returns, answer_returns, exits, main_joins, run,
}
use c_exercises.Sockets.{goes}
use c_exercises.Cache.{load_table, load_loop, qsort}
use c_exercises.FileServer.Threads.AtRest.{IsAtRest}
use c_exercises.FileServer.Starting.{System, Main, gfserver_start, gfserver-IsAtRest}

abbrev job : Job
job = record { path = codes "/a"; ctx = 1 }

abbrev other : Job
other = record { path = codes "/b"; ctx = 2 }

-- The second request finds no memory; the last one comes behind the exit.
abbrev schedule : List Move
schedule =
    works 0
    ∷ requests 1 true job
    ∷ requests 0 false job
    ∷ works 0
    ∷ works 0
    ∷ works 1
    ∷ works 0
    ∷ wakes 1
    ∷ requests 0 true other
    ∷ exits
    ∷ requests 0 true other
    ∷ main_joins
    ∷ returns 0
    ∷ returns 1
    ∷ works 1
    ∷ works 1
    ∷ returns 1
    ∷ works 1
    ∷ works 0
    ∷ main_joins
    ∷ main_joins
    ∷ main_joins
    ∷ []

abbrev started : ServerThreads
started = first_state 2

blocked : (i : ℕ) → worker_step i (run schedule started) ≡ none
unfolding run worker_step answer_returns request_step exit_step join_step server_worker_job
    gfs_handler cleanup_threads cond_signal cond_broadcast
blocked zero = refl
blocked (suc zero) = refl
blocked (suc (suc i)) = refl

joined : join_step (run schedule started) ≡ none
unfolding run worker_step answer_returns request_step exit_step join_step server_worker_job
    gfs_handler cleanup_threads cond_signal cond_broadcast
joined = refl

abbrev system : System
system = record {
  catches_int = true;
  catches_term = true;
  fopen = λ name. some [];
  opens = λ n name. some 5;
  allocates = true;
  creates = λ i. true;
}

abbrev main : Main
main = record { items = []; numthreads = 2; threads = started; port = 80; max_npending = 24 }

abbrev options : List (ℕ × List ℕ)
options = (b't', codes "2") ∷ (b'p', codes "80") ∷ []

starts : gfserver_start options system ≡ some (goes [] main)
unfolding gfserver_start load_table load_loop qsort
starts = refl

gfserver-IsAtRest_example : IsAtRest 2 (job ∷ other ∷ []) (run schedule started)
gfserver-IsAtRest_example = gfserver-IsAtRest options system [] main schedule starts blocked joined

-- A number of threads below one is taken as one.
one_thread :
    gfserver_start ((b't', codes "-3") ∷ []) system
    ≡ some (
        goes [] (record {
          items = [];
          numthreads = 1;
          threads = first_state 1;
          port = 56726;
          max_npending = 24;
        }))
unfolding gfserver_start load_table load_loop qsort
one_thread = refl
