-- ===== src/Download.antt =====
-- The download clients: projects/mtgf/gfclient_download.c, with a pool of workers, and what
-- projects/gflib/gfclient_download.c does alike.
pub mod Pool
pub mod Files
mod Tests
use c_exercises.Base.{
  ℕ, zero, suc, ◌+◌, ◌-◌, Bool, true, false, not, ◌||◌, Option, none, some, List, [], ◌∷◌, ◌++◌,
  ◌==◌, ltb, leb, if◌then◌else◌, length, take, drop, replicate, ℤ, pos, negsuc, is_negative,
}
use c_exercises.Text.{codes, show_size}
use c_exercises.Text.Integers.{atoi, to_ushort}
use c_exercises.Net.{Net}
use c_exercises.GetFile.Client.{
  Status, Request, gfc_create, gfc_set_path, gfc_set_port, gfc_set_server, gfc_set_writefunc,
  gfc_get_status,
}
use c_exercises.GetFile.Client.Perform.{Dial, gfc_perform}
use c_exercises.Sockets.{
  Start, exits, goes, ◌>>=◌, ◌>>◌, require, Choice, sets, quits, read_options,
}
use c_exercises.Workload.{
  Workload, Started, returns, overruns, out_of_fuel, Entry, path, null, out_of_bounds,
  divides_by_zero, workload_init, workload_get_path,
}
use c_exercises.Download.Pool.{Threads, create_workers}

-- The variables that the options set.
pub record Options : Type 0 where
  pub server : List ℕ
  pub workload_path : List ℕ
  pub nrequests : ℤ
  pub nthreads : ℤ
  pub port : ℕ

-- The switch of the client in projects/mtgf.
unfoldable pub download_switch : ℕ → List ℕ → Options → Choice Options
unfolding atoi
download_switch char arg o =
    if char == b's'
    then sets (record o { server = arg })
    else if char == b'w'
    then sets (record o { workload_path = arg })
    else if char == b'r' || char == b'n'
    then sets (record o { nrequests = atoi arg })
    else if char == b't'
    then sets (record o { nthreads = atoi arg })
    else if char == b'p'
    then sets (record o { port = to_ushort (atoi arg) })
    else if char == b'h'
    then quits 0
    else quits 1

abbrev pub max_threads : ℕ
max_threads = 1024

-- `!(nthreads < 1 || nthreads > MAX_THREADS)`
abbrev pub is_thread_count : ℤ → Bool
is_thread_count (pos n) = not (ltb n 1 || ltb max_threads n)
is_thread_count (negsuc _) = false

-- The result of `workload_init`. The program's behaviour is undefined where it overruns.
abbrev pub load : Started → Option (Start Workload)
load (returns code w) = some (if code == 0 then goes [] w else exits 1 [])
load overruns = none
load out_of_fuel = none

abbrev no_paths : Workload
no_paths = record { paths = []; counter = 0 }

abbrev pub with_workload : Options → Option (Start Workload) → Option (Start (Options × Workload))
with_workload o none = none
with_workload o (some started) = some (do
  w ← started
  require (not (ltb 65331 o.port))
  require (is_thread_count o.nthreads)
  goes [] (o, w))

abbrev pub with_options :
    (List ℕ → Option (List ℕ)) → Start Options → Option (Start (Options × Workload))
with_options fopen (exits code closed) = some (exits code closed)
with_options fopen (goes closed o) =
    with_workload o (load (workload_init (fopen o.workload_path) no_paths))

-- The client of projects/mtgf up to the creation of its workers. `fopen` gives a file's bytes.
unfoldable pub download_start :
    List (ℕ × List ℕ) → (List ℕ → Option (List ℕ)) → Option (Start (Options × Workload))
unfolding download_switch read_options workload_init
download_start options fopen = with_options fopen (
    read_options download_switch options (record {
      server = codes "localhost";
      workload_path = codes "workload.txt";
      nrequests = pos 14;
      nthreads = pos 8;
      port = 56726;
    }))

abbrev pub and_then : Entry → Option (List (List ℕ)) → Option (List (List ℕ))
and_then (path p) (some ps) = some (p ∷ ps)
and_then _ _ = none

-- The paths of so many requests; `none` if one of them is no path, where `strdup` faults.
unfoldable pub request_paths : ℕ → Workload → Option (List (List ℕ))
unfolding workload_get_path
request_paths zero w = some []
request_paths (suc n) w = let (e, w') = workload_get_path w in and_then e (request_paths n w')

abbrev pub count_of : ℤ → ℕ
count_of (pos n) = n
count_of (negsuc _) = 0

-- The threads behind the creation of the workers, with the loop over the requests to come; `none` is
-- undefined behaviour.
unfoldable pub download_threads : (ℕ → Bool) → Options × Workload → Option Threads
unfolding request_paths create_workers
download_threads creates (o, w) = elim (request_paths (count_of o.nrequests) w) [
  | none ↦ none
  | some ps ↦ create_workers creates ps (count_of o.nthreads)
]
