-- ===== src/Shm/Channel.antt =====
-- One transfer through a segment: the loop of `handle_cache_request` in simplecached.c (the writer)
-- and that of `handle_with_cache` in handle_with_cache.c (the reader), over the packet and the two
-- semaphores of the segment. What a side does while it holds its semaphore is one step: the other
-- side does not touch the packet meanwhile. A `sem_wait` that is interrupted is left out. It is one transfer by itself: the
-- reader's release of the segment behind its end, and a later transfer on the same segment while the
-- writer still waits, are not part of it.
pub mod Invariant
pub mod Schedule
pub mod Progress
mod Tests
use c_exercises.Base.{
  ℕ, zero, suc, ◌+◌, ◌-◌, Bool, true, false, ◌&&◌, ◌||◌, not, Option, none, some, List, [], ◌∷◌,
  ◌++◌, ◌==◌, ltb, leb, if◌then◌else◌, length, take,
}

-- The macros of cache-student.h.
abbrev pub cache_status_ok : ℕ
cache_status_ok = 0

abbrev pub cache_status_notfound : ℕ
cache_status_notfound = 1

-- `shm_packet_t`; the buffer is the part of it that holds `validBytes` bytes.
pub record Packet : Type 0 where
  pub status : ℕ
  pub file_size : ℕ
  pub valid_bytes : ℕ
  pub stream_done : Bool
  pub buffer : List ℕ

-- `memset(pkt, 0, seg->seg_size)`
abbrev pub cleared : Packet
cleared = record {
  status = cache_status_ok;
  file_size = 0;
  valid_bytes = 0;
  stream_done = false;
  buffer = [];
}

-- Where the writer stands: before `sem_wait(sem_empty)`, between it and `sem_post(sem_full)`, before
-- the test of `streamDone`, or behind the loop.
pub data Writer : Type 0 where
  waits fills checks ends : Writer

-- Where the reader stands: before `sem_wait(sem_full)`, behind it, or behind the loop with the whole
-- stream, with `GF_FILE_NOT_FOUND`, or by way of `failure`.
pub data Reader : Type 0 where
  waits takes ends missing fails : Reader

-- The two semaphores, the packet, and both sides with their local variables: how much of the file
-- the writer has put into packets, and whether the reader has sent the header and what else it sent.
pub record Channel : Type 0 where
  pub sem_empty : ℕ
  pub sem_full : ℕ
  pub packet : Packet
  pub writer : Writer
  pub total : ℕ
  pub reader : Reader
  pub header_transferred : Bool
  pub output : List ℕ

-- The semaphores are made with 1 and 0, and the proxy has cleared the packet.
unfoldable pub start : Channel
start = record {
  sem_empty = 1;
  sem_full = 0;
  packet = cleared;
  writer = Writer.waits;
  total = 0;
  reader = Reader.waits;
  header_transferred = false;
  output = [];
}

-- What `pread(reqfd, pkt->buffer, dataCap, offset)` reads at an offset; `none` is an error.
abbrev pub Pread : Type 0
Pread = ℕ → Option (List ℕ)

module _ (pread : Pread) (file_size : ℕ) where
  -- The packet with what was read, and the one that reports an error.
  abbrev pub filled : ℕ → List ℕ → Packet
  filled total d = record {
    status = cache_status_ok;
    file_size = file_size;
    valid_bytes = length d;
    stream_done = leb file_size (total + length d) || length d == 0;
    buffer = d;
  }

  abbrev pub unreadable : List ℕ → Packet
  unreadable old = record {
    status = cache_status_notfound;
    file_size = file_size;
    valid_bytes = 0;
    stream_done = true;
    buffer = old;
  }

  -- A step of the writer; `none` while it is blocked or when it has ended.
  fill : Channel → Option (List ℕ) → Channel
  fill c none = record c {
    packet = unreadable c.packet.buffer;
    sem_full = c.sem_full + 1;
    writer = Writer.ends;
  }
  fill c (some d) = record c {
    packet = filled c.total d;
    total = c.total + length d;
    sem_full = c.sem_full + 1;
    writer = Writer.checks;
  }

  writer_at : Writer → Channel → Option Channel
  unfolding fill
  writer_at Writer.waits c =
      if c.sem_empty == 0
      then none
      else some (record c { sem_empty = c.sem_empty - 1; writer = Writer.fills })
  writer_at Writer.fills c = some (fill c (pread c.total))
  writer_at Writer.checks c =
      some (record c { writer = if c.packet.stream_done then Writer.ends else Writer.waits })
  writer_at Writer.ends c = none

  unfoldable pub writer_step : Channel → Option Channel
  unfolding writer_at
  writer_step c = writer_at c.writer c

-- Whether `gfs_sendheader` and `gfs_send` succeed.
pub record Sends : Type 0 where
  pub header : Bool
  pub body : Bool

-- What the reader sends of a packet.
abbrev pub payload : Packet → List ℕ
payload p = take p.valid_bytes p.buffer

-- The reader behind the header: the payload, the test of `streamDone`, and the post.
deliver : Bool → Channel → Channel
deliver sent c =
    if ltb 0 c.packet.valid_bytes && not sent
    then record c { reader = Reader.fails; sem_empty = c.sem_empty + 1 }
    else record c {
      output = c.output ++ payload c.packet;
      header_transferred = true;
      reader = if c.packet.stream_done then Reader.ends else Reader.waits;
      sem_empty = c.sem_empty + 1;
    }

take_packet : Sends → Channel → Channel
unfolding deliver
take_packet s c =
    if c.header_transferred
    then deliver s.body c
    else if c.packet.status == cache_status_notfound
    then record c { reader = Reader.missing; sem_empty = c.sem_empty + 1 }
    else if not (c.packet.status == cache_status_ok)
    then record c { reader = Reader.fails; sem_empty = c.sem_empty + 1 }
    else if not s.header
    then record c { reader = Reader.fails; sem_empty = c.sem_empty + 1 }
    else deliver s.body c

reader_at : Reader → Sends → Channel → Option Channel
unfolding take_packet
reader_at Reader.waits s c =
    if c.sem_full == 0
    then none
    else some (record c { sem_full = c.sem_full - 1; reader = Reader.takes })
reader_at Reader.takes s c = some (take_packet s c)
reader_at _ s c = none

-- A step of the reader; `none` while it is blocked or when it has ended.
unfoldable pub reader_step : Sends → Channel → Option Channel
unfolding reader_at
reader_step s c = reader_at c.reader s c

-- Both sides run at once: a schedule is a sequence of steps, and a blocked step changes nothing.
pub data Move : Type 0 where
  writes : Move
  reads : Sends → Move

abbrev pub stay_or : Channel → Option Channel → Channel
stay_or c none = c
stay_or _ (some d) = d

unfoldable pub step : Pread → ℕ → Move → Channel → Channel
step pread file_size Move.writes c = stay_or c (writer_step pread file_size c)
step pread file_size (Move.reads s) c = stay_or c (reader_step s c)

unfoldable pub run : Pread → ℕ → List Move → Channel → Channel
run pread file_size [] c = c
run pread file_size (m ∷ ms) c = run pread file_size ms (step pread file_size m c)
