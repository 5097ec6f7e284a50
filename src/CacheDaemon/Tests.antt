-- ===== src/CacheDaemon/Tests.antt =====
-- A daemon with one worker, a file and two connections.
use c_exercises.Base.{
  ℕ, zero, suc, ◌≡◌, ◌≤◌, ◌<◌, ◌+◌, Bool, length, replicate, ◌*◌, refl, true, false, none, some,
  List, [], ◌∷◌, pos, negsuc,
}
use c_exercises.Text.{codes}
use c_exercises.Net.Wire.{wires, wire}
use c_exercises.Sockets.{goes}
use c_exercises.Cache.{
  load_table, load_loop, use_line, fgets, keep_item, fields, strsep, qsort, insert,
}
use c_exercises.CacheDaemon.{System, Daemon, daemon_start, read_all, connect_loop, sig_handler}
use c_exercises.CacheDaemon.Starting.{daemon-IsServed}
use c_exercises.CacheDaemon.Reading.{Reads, read_all-Reads}
use c_exercises.CacheDaemon.Queue.{
  Move, accepts, works, wakes, returns, cache_worker_job, request_returns, work_q_init, run,
  work_q_push, work_q_pop, accept_step,
}
use c_exercises.Workers.{cond_signal}
use c_exercises.CacheDaemon.Queue.Served.{IsServed}
use c_exercises.CacheDaemon.Queue.Steps.{worker_steps, worker_steps-le_connections}

abbrev system : System
system = record {
  catches_int = true;
  catches_term = true;
  fopen = λ name. some (codes "/a a.txt\n");
  opens = λ n name. some 5;
  allocates = true;
  socket = pos 4;
  binds = true;
  listens = true;
}

abbrev options : List (ℕ × List ℕ)
options = (b't', codes "1") ∷ []

abbrev daemon : Daemon
daemon = record {
  items = record { fildes = 5; key = codes "/a" } ∷ [];
  nthreads = 1;
  delay = 0;
  g_cache_sockfd = pos 4;
}

started : daemon_start options system ≡ some (goes [] daemon)
unfolding daemon_start load_table load_loop use_line fgets keep_item fields strsep qsort insert
started = refl

-- Two connections, an error of `accept` between them, and a wait that ends with no signal. The first
-- request comes to its end.
abbrev schedule : List Move
schedule =
    works 0
    ∷ accepts 0 (pos 7)
    ∷ accepts 3 (negsuc 0)
    ∷ works 0
    ∷ accepts 0 (pos 8)
    ∷ works 0
    ∷ returns 0
    ∷ wakes 0
    ∷ works 0
    ∷ accepts 0 (pos 9)
    ∷ []

abbrev only_one : List Bool
only_one = true ∷ []

blocked : (i : ℕ) → cache_worker_job i (run schedule (work_q_init only_one)) ≡ none
unfolding cache_worker_job request_returns run accept_step work_q_push work_q_pop cond_signal
blocked zero = refl
blocked (suc i) = refl

daemon-IsServed_example :
    IsServed 1 (pos 7 ∷ pos 8 ∷ pos 9 ∷ []) (run schedule (work_q_init only_one))
    × (only_one ≡ replicate 1 true → 0 < length (run schedule (work_q_init only_one)).workers)
daemon-IsServed_example = daemon-IsServed options system [] daemon only_one schedule started blocked

worker_steps-le_connections_example : worker_steps schedule (work_q_init only_one) ≤ 1 + 3 * 3 + 1
worker_steps-le_connections_example = worker_steps-le_connections only_one schedule

read_all-Reads_example :
    Reads wires
      (pos 7)
      8
      []
      (wire (codes "request!+"))
      (read_all wires (pos 7) 8 (wire (codes "request!+")))
read_all-Reads_example = read_all-Reads wires (pos 7) 8 (wire (codes "request!+"))

connects_at_last :
    connect_loop (
      record { socket = negsuc 0; accepts = true }
      ∷ record { socket = pos 3; accepts = false }
      ∷ record { socket = pos 4; accepts = true }
      ∷ [])
    ≡ (some (pos 4), pos 3 ∷ [])
unfolding connect_loop
connects_at_last = refl

stopped : sig_handler 2 daemon ≡ some (2, pos 4 ∷ pos 5 ∷ [])
unfolding sig_handler
stopped = refl
