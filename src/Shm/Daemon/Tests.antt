-- ===== src/Shm/Daemon/Tests.antt =====
-- A request for a file that is not in the table, and one for a segment that cannot be opened.
use c_exercises.Base.{◌≡◌, refl, true, none, some, [], pos, minus_one}
use c_exercises.Shm.Channel.{Pread, Sends}
use c_exercises.Shm.Daemon.{Answers, Stage, handle_cache_request}

abbrev lost : Answers
lost = record {
  gets_request = true;
  shmfd = pos 7;
  maps = true;
  seg_size = 4096;
  opens_empty = true;
  opens_full = true;
  filefd = minus_one;
  reqfd = minus_one;
  st_size = none;
}

abbrev unopened : Answers
unopened = record lost { shmfd = minus_one }

abbrev both : Sends
both = record { header = true; body = true }

abbrev no_bytes : Pread
no_bytes off = some []

lost-refuses : (handle_cache_request 40 lost).0 ≡ Stage.refuses
unfolding handle_cache_request
lost-refuses = refl

unopened-silent : (handle_cache_request 40 unopened).0 ≡ Stage.silent
unfolding handle_cache_request
unopened-silent = refl
