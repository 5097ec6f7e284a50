-- ===== src/CacheDaemon.antt =====
-- The cache daemon of projects/proxycacheserver/cache/simplecached.c around its requests: options, the
-- socket of shm_channel.c, the queue of connections (Queue), and the end on a signal.
pub mod Queue
pub mod Starting
pub mod Reading
mod Tests
use c_exercises.Base.{
  ℕ, zero, suc, ◌+◌, ◌-◌, ◌%◌, Bool, true, false, not, ◌&&◌, ◌||◌, Option, none, some, List, [],
  ◌∷◌, ◌++◌, ◌==◌, ltb, if◌then◌else◌, length, ℤ, pos, negsuc, minus_one, is_negative,
}
use c_exercises.Text.{codes}
use c_exercises.Text.Integers.{atoi, to_ulong}
use c_exercises.Net.{Net, failed, got}
use c_exercises.Sockets.{
  Start, exits, goes, ◌>>=◌, ◌>>◌, require_or, Choice, sets, quits, read_options, Address,
}
use c_exercises.Cache.{Item, Open, Loaded, simplecache_init, simplecache_destroy}

-- The variables that the options set.
pub record DaemonOptions : Type 0 where
  pub nthreads : ℤ
  pub cachedir : List ℕ
  pub cache_delay : ℕ

unfoldable pub daemon_switch : ℕ → List ℕ → DaemonOptions → Choice DaemonOptions
unfolding atoi
daemon_switch char arg o =
    if char == b't'
    then sets (record o { nthreads = atoi arg })
    else if char == b'h'
    then quits 0
    else if char == b'c'
    then sets (record o { cachedir = arg })
    else if char == b'd'
    then sets (record o { cache_delay = to_ulong (atoi arg) })
    else if char == b'i' || char == b'o' || char == b'a'
    then sets o
    else quits 1

-- What the operating system answers: to `signal` for SIGINT and SIGTERM, to `fopen` and `open` of the
-- list and its files, to `malloc`, and to `socket`, `bind` and `listen`.
pub record System : Type 1 where
  pub catches_int : Bool
  pub catches_term : Bool
  pub fopen : List ℕ → Option (List ℕ)
  pub opens : Open
  pub allocates : Bool
  pub socket : ℤ
  pub binds : Bool
  pub listens : Bool

-- `!((nthreads > 100) || (nthreads < 1))`
abbrev pub is_pool_size : ℤ → Bool
is_pool_size (pos n) = not (ltb 100 n || ltb n 1)
is_pool_size (negsuc _) = false

-- The tests behind the options. 297 and 302 are the `__LINE__` of two, 255 is CACHE_FAILURE.
abbrev pub daemon_tests : System → DaemonOptions → Start DaemonOptions
daemon_tests sys o = do
  require_or 297 (not (ltb 2500000 o.cache_delay))
  require_or 302 (is_pool_size o.nthreads)
  require_or 255 sys.catches_int
  require_or 255 sys.catches_term
  goes [] o

-- `main` up to `simplecache_init`.
unfoldable pub daemon_options : List (ℕ × List ℕ) → System → Start DaemonOptions
unfolding daemon_switch read_options
daemon_options options sys =
    read_options daemon_switch options
      (record { nthreads = pos 6; cachedir = codes "locals.txt"; cache_delay = 0 })
    >>= daemon_tests sys

-- `cache_socket_init`: its result, and `g_cache_sockfd` behind it.
unfoldable pub cache_socket_init : System → ℤ × ℤ
cache_socket_init sys =
    if is_negative sys.socket
    then (minus_one, sys.socket)
    else if sys.binds && sys.listens
    then (sys.socket, sys.socket)
    else (minus_one, sys.socket)

-- The daemon in its loop over `accept`.
pub record Daemon : Type 0 where
  pub items : List Item
  pub nthreads : ℕ
  pub delay : ℕ
  pub g_cache_sockfd : ℤ

abbrev pub count_of : ℤ → ℕ
count_of (pos n) = n
count_of (negsuc _) = 0

abbrev pub with_socket : DaemonOptions → List Item → ℤ × ℤ → Start Daemon
with_socket o items (result, sockfd) =
    if is_negative result
    then exits 255 []
    else goes [] (record {
      items = items;
      nthreads = count_of o.nthreads;
      delay = o.cache_delay;
      g_cache_sockfd = sockfd;
    })

-- Behind `simplecache_init`; the behaviour is undefined where that overruns.
abbrev pub with_items : System → DaemonOptions → Loaded → Option (Start Daemon)
with_items sys o (Loaded.loaded items) =
    some (do require_or 1 sys.allocates; with_socket o items (cache_socket_init sys))
with_items sys o Loaded.exits = some (exits 255 [])
with_items sys o Loaded.overruns = none
with_items sys o Loaded.out_of_fuel = none

abbrev pub with_checked : System → Start DaemonOptions → Option (Start Daemon)
with_checked sys (exits code closed) = some (exits code closed)
with_checked sys (goes closed o) =
    with_items sys o (simplecache_init sys.opens (sys.fopen o.cachedir))

-- `main` up to its loop.
unfoldable pub daemon_start : List (ℕ × List ℕ) → System → Option (Start Daemon)
unfolding daemon_options cache_socket_init simplecache_init
daemon_start options sys = with_checked sys (daemon_options options sys)

-- `cache_socket_cleanup`: the descriptors it closes.
unfoldable pub cache_socket_cleanup : ℤ → List ℤ
cache_socket_cleanup sockfd = if is_negative sockfd then [] else sockfd ∷ []

abbrev pub descriptors : List ℕ → List ℤ
descriptors [] = []
descriptors (n ∷ ns) = pos n ∷ descriptors ns

-- `_sig_handler` on SIGINT (2) and SIGTERM (15): the exit code, and the descriptors it closes.
unfoldable pub sig_handler : ℕ → Daemon → Option (ℕ × List ℤ)
unfolding cache_socket_cleanup simplecache_destroy
sig_handler signo d =
    if signo == 15 || signo == 2
    then some
        (signo, cache_socket_cleanup d.g_cache_sockfd ++ descriptors (simplecache_destroy d.items))
    else none

-- `connect_to_cache_socket`: its result, and the descriptors it closes.
unfoldable pub connect_to_cache_socket : Address → ℤ × List ℤ
connect_to_cache_socket a =
    if is_negative a.socket
    then (minus_one, [])
    else if a.accepts
    then (a.socket, [])
    else (minus_one, a.socket ∷ [])

-- The loop of `handle_with_cache` over the attempts, with a second of sleep behind each that fails:
-- the socket, or `none` if no attempt has succeeded yet, and the descriptors closed.
unfoldable pub connect_loop : List Address → Option ℤ × List ℤ
unfolding connect_to_cache_socket
connect_loop [] = (none, [])
connect_loop (a ∷ rest) =
    let (sock, closed) = connect_to_cache_socket a in
    let (later, more) = connect_loop rest in
    if is_negative sock then (later, closed ++ more) else (some sock, closed)

module _ (net : Net) where
  open net use {World, recv}

  -- `read_all` from `totalBytes` on: its result, and the buffer as far as it is filled. A round that goes
  -- on reads a byte, so the fuel is one more than the length.
  unfoldable pub read_loop : ℕ → ℤ → ℕ → List ℕ → World → Option ((ℤ × List ℕ) × World)
  read_loop zero fd missing buf w = none
  read_loop (suc fuel) fd zero buf w = some ((pos (length buf), buf), w)
  read_loop (suc fuel) fd (suc missing) buf w =
      let r = recv fd (suc missing) w in
      elim r.0 [
        | failed ↦ some ((minus_one, buf), r.1)
        | got d ↦ elim d [
          | [] ↦ some ((minus_one, buf), r.1)
          | b ∷ bs ↦ read_loop fuel fd (suc missing - length (b ∷ bs)) (buf ++ b ∷ bs) r.1
        ]
      ]

  unfoldable pub read_all : ℤ → ℕ → World → Option ((ℤ × List ℕ) × World)
  unfolding read_loop
  read_all fd len w = read_loop (suc len) fd len [] w
