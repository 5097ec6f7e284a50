-- ===== src/Shm/Daemon.antt =====
-- The request behind a transfer: `handle_cache_request` of
-- projects/proxycacheserver/cache/simplecached.c up to its loop, its `send_fail`, and its `cleanup`.
-- What the operating system and the table of files answer is an argument.
pub mod Outcomes
mod Tests
use c_exercises.Base.{
  ℕ, ◌+◌, ◌-◌, Bool, true, false, not, ◌&&◌, Option, none, some, List, [], ◌∷◌, ◌++◌, ◌==◌, leb,
  if◌then◌else◌, ℤ, pos, minus_one, is_negative,
}
use c_exercises.Shm.Channel.{cache_status_notfound, Packet, Writer, Reader, Channel, start, stay_or}

-- Whether the request comes in whole, what `shm_open` returns, whether `mmap` succeeds, the segment's
-- size in the request, whether both `sem_open` succeed, and what `simplecache_get`, `dup` and `fstat`
-- return.
pub record Answers : Type 0 where
  pub gets_request : Bool
  pub shmfd : ℤ
  pub maps : Bool
  pub seg_size : ℕ
  pub opens_empty : Bool
  pub opens_full : Bool
  pub filefd : ℤ
  pub reqfd : ℤ
  pub st_size : Option ℕ

-- Where the request goes: to `cleanup` at once, to `send_fail`, or into the loop with the file's size and
-- `dataCap`.
pub data Stage : Type 0 where
  silent refuses : Stage
  streams : ℕ → ℕ → Stage

-- What is there at `cleanup`; `reqfd` is `none` if no statement has set it.
pub record Held : Type 0 where
  pub shmfd : ℤ
  pub mapped : Bool
  pub sem_empty : Bool
  pub sem_full : Bool
  pub reqfd : Option ℤ

abbrev pub held : ℤ → Bool → Bool → Bool → Option ℤ → Held
held fd mapped sem_empty sem_full reqfd = record {
  shmfd = fd;
  mapped = mapped;
  sem_empty = sem_empty;
  sem_full = sem_full;
  reqfd = reqfd;
}

abbrev pub stage_of : Option ℕ → ℕ → Stage
stage_of none cap = Stage.refuses
stage_of (some size) cap = Stage.streams size cap

-- With a client's descriptor that is not negative; the first argument is `sizeof(shm_packet_t)`.
unfoldable pub handle_cache_request : ℕ → Answers → Stage × Held
handle_cache_request header_size a =
    if not a.gets_request
    then (Stage.silent, held minus_one false false false none)
    else if is_negative a.shmfd
    then (Stage.silent, held a.shmfd false false false none)
    else if not a.maps
    then (Stage.silent, held a.shmfd false false false none)
    else if leb a.seg_size header_size
    then (Stage.silent, held a.shmfd true false false none)
    else if not (a.opens_empty && a.opens_full)
    then (Stage.silent, held a.shmfd true a.opens_empty a.opens_full none)
    else if is_negative a.filefd
    then (Stage.refuses, held a.shmfd true true true none)
    else if is_negative a.reqfd
    then (Stage.refuses, held a.shmfd true true true (some a.reqfd))
    else (stage_of a.st_size (a.seg_size - header_size), held a.shmfd true true true (some a.reqfd))

-- The packet that `send_fail` leaves.
abbrev pub refusal : List ℕ → Packet
refusal old = record {
  status = cache_status_notfound;
  file_size = 0;
  valid_bytes = 0;
  stream_done = true;
  buffer = old;
}

-- `send_fail`; `none` while it is blocked.
unfoldable pub send_fail : Channel → Option Channel
send_fail c =
    if c.sem_empty == 0
    then none
    else some (record c {
      sem_empty = c.sem_empty - 1;
      packet = refusal c.packet.buffer;
      sem_full = c.sem_full + 1;
      writer = Writer.ends;
    })

-- The channel behind the request, before the loop's first step.
unfoldable pub begin : Stage → Channel
begin Stage.silent = record start { writer = Writer.ends }
begin Stage.refuses = stay_or start (send_fail start)
begin (Stage.streams size cap) = start

-- What `cleanup` closes, in order. `unset` is a close that depends on a variable never set.
pub data Closing : Type 0 where
  unset close_sem_empty close_sem_full unmap : Closing
  close : ℤ → Closing

abbrev close_fd : ℤ → List Closing
close_fd fd = if is_negative fd then [] else Closing.close fd ∷ []

abbrev close_reqfd : Option ℤ → List Closing
close_reqfd none = Closing.unset ∷ []
close_reqfd (some fd) = close_fd fd

abbrev when : Bool → Closing → List Closing
when b c = if b then c ∷ [] else []

unfoldable pub cleanup : ℤ → Held → List Closing
cleanup clientfd h =
    close_reqfd h.reqfd
    ++ (when h.sem_empty Closing.close_sem_empty
        ++ (when h.sem_full Closing.close_sem_full
            ++ (when h.mapped Closing.unmap ++ (close_fd h.shmfd ++ close_fd clientfd))))
