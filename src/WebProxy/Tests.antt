-- ===== src/WebProxy/Tests.antt =====
-- A proxy with two segments, started and stopped.
use c_exercises.Base.{ℕ, ◌+◌, ◌≡◌, refl, true, false, some, List, [], ◌∷◌, pos}
use c_exercises.Text.{codes}
use c_exercises.Sockets.{goes, exits}
use c_exercises.Shm.Pool.{Segment, Mapping, init_from, segment_init}
use c_exercises.WebProxy.{System, Proxy, webproxy_start}
use c_exercises.WebProxy.Starting.{Runs, webproxy_start-Runs}

abbrev system : System
system = record {
  catches_term = true;
  catches_int = true;
  allocates = true;
  setup = λ i. record {
    shmfd = pos (5 + i);
    truncates = true;
    maps = true;
    opens_empty = true;
    opens_full = true;
  };
}

abbrev segment : ℕ → Segment
segment fd = record {
  shmfd = pos fd;
  addr = Mapping.mapped;
  sem_empty = true;
  sem_full = true;
  in_use = false;
}

abbrev proxy : Proxy
proxy = record {
  options = record {
    server = codes "s";
    nsegments = 2;
    port = 25362;
    nworkerthreads = 8;
    segsize = 5712;
  };
  g_pool = some (segment 5 ∷ segment 6 ∷ []);
  maxnpending = 187;
}

abbrev options : List (ℕ × List ℕ)
options = (b'n', codes "2") ∷ (b's', codes "s") ∷ []

started : webproxy_start options system ≡ goes [] proxy
unfolding webproxy_start init_from segment_init
started = refl

webproxy_start-Runs_example : Runs system proxy
webproxy_start-Runs_example = webproxy_start-Runs options system [] proxy started

-- The count of threads is an `unsigned short`, so 65537 passes as 1.
too_many_threads_pass :
    webproxy_start ((b't', codes "65537") ∷ options) system
    ≡ goes [] (record proxy { options = record proxy.options { nworkerthreads = 1 } })
unfolding webproxy_start init_from segment_init
too_many_threads_pass = refl

-- A negative size is taken modulo 2 ^ 64, so only sizes from 0 to 823 are refused.
small_size_refused : webproxy_start ((b'z', codes "823") ∷ options) system ≡ exits 127 []
unfolding webproxy_start init_from segment_init
small_size_refused = refl
