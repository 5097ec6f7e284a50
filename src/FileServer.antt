-- ===== src/FileServer.antt =====
-- projects/mtgf/handler.c: the jobs of the multi-threaded file server, and how a worker answers one.
-- The queue is the list that steque.c implements; a job is its context and its path.
pub mod Sending
pub mod Answers
pub mod Jobs
pub mod Threads
pub mod Starting
mod Tests
use c_exercises.Base.{
  ℕ, zero, suc, ◌+◌, ◌-◌, Bool, true, false, not, Option, none, some, List, [], ◌∷◌, ◌++◌, ◌==◌,
  ltb, if◌then◌else◌, length, take, drop, ℤ, pos, negsuc, minus_one, is_negative,
}
use c_exercises.Gfs.{Gfs}
use c_exercises.GetFile.Send.{gf_ok, gf_file_not_found, gf_error}

pub record Job : Type 0 where
  pub path : List ℕ
  pub ctx : ℕ

-- What the file system answers: `content_get`, `dup`, and of a descriptor the size that `fstat` gives
-- and what `pread` reads at an offset; `none` is an error.
pub record Files : Type 0 where
  pub content_get : List ℕ → ℤ
  pub dup : ℤ → ℤ
  pub fstat : ℤ → Option ℕ
  pub pread : ℤ → ℕ → Option (List ℕ)

module _ (gfs : Gfs) where
  open gfs use {World, gfs_sendheader, gfs_send, gfs_abort}

  -- `send_all` from `offset` on: the result is what it returns, which is `done offset` behind the loop
  -- (0 here, the number of bytes in handle_with_curl.c). The fuel bounds the rounds.
  unfoldable pub send_loop : (ℕ → ℤ) → ℕ → ℕ → List ℕ → ℕ → World → Option (ℤ × World)
  send_loop done zero ctx buf offset w = none
  send_loop done (suc fuel) ctx buf offset w =
      let r = gfs_send ctx (drop offset buf) w in
      elim (ltb offset (length buf)) [
        | false ↦ some (done offset, w)
        | true ↦ elim r.0 [
          | negsuc k ↦ some (minus_one, r.1)
          | pos zero ↦ some (minus_one, r.1)
          | pos (suc n) ↦ send_loop done fuel ctx buf (offset + suc n) r.1
        ]
      ]

  unfoldable pub send_all : ℕ → List ℕ → World → Option (ℤ × World)
  send_all ctx buf w = send_loop (λ _. pos 0) (suc (length buf)) ctx buf 0 w

  -- The loop over `pread`: whether the job is to be aborted. `read` reads from the job's descriptor.
  unfoldable pub read_loop : ℕ → (ℕ → Option (List ℕ)) → ℕ → ℕ → World → Option (Bool × World)
  read_loop zero read ctx offset w = none
  read_loop (suc fuel) read ctx offset w = elim (read offset) [
    | none ↦ some (true, w)
    | some d ↦ elim d [
      | [] ↦ some (false, w)
      | b ∷ bs ↦ elim (send_all ctx (b ∷ bs) w) [
        | none ↦ none
        | some (code, w') ↦ elim (is_negative code) [
          | true ↦ some (true, w')
          | false ↦ read_loop fuel read ctx (offset + length (b ∷ bs)) w'
        ]
      ]
    ]
  ]

  -- A header without a body: whether the job is to be aborted.
  unfoldable pub refuse : ℕ → ℕ → World → Option (Bool × World)
  refuse ctx status w = let r = gfs_sendheader ctx status 0 w in some (is_negative r.0, r.1)

  -- From `gfs_sendheader(..., GF_OK, fileLen)` on; `fuel` bounds the reads.
  unfoldable pub send_file : ℕ → (ℕ → Option (List ℕ)) → ℕ → ℕ → World → Option (Bool × World)
  send_file fuel read ctx file_len w =
      let r = gfs_sendheader ctx gf_ok file_len w in
      elim (is_negative r.0) [ true ↦ some (true, r.1) | false ↦ read_loop fuel read ctx 0 r.1 ]

  unfoldable pub send_size :
      ℕ → (ℕ → Option (List ℕ)) → ℕ → Option ℕ → World → Option (Bool × World)
  send_size fuel read ctx none w = refuse ctx gf_file_not_found w
  send_size fuel read ctx (some file_len) w = send_file fuel read ctx file_len w

  -- The body of the worker's loop behind the pop, up to `done`.
  unfoldable pub answer_job : ℕ → Files → Job → World → Option (Bool × World)
  answer_job fuel files job w =
      let basefd = files.content_get job.path in
      let workfd = files.dup basefd in
      elim (is_negative basefd) [
        | true ↦ refuse job.ctx gf_file_not_found w
        | false ↦ elim (is_negative workfd) [
          | true ↦ refuse job.ctx gf_error w
          | false ↦ send_size fuel (files.pread workfd) job.ctx (files.fstat workfd) w
        ]
      ]

  -- What stands behind `done`: an abort, if one is wanted.
  unfoldable pub finish_job : ℕ → Bool × World → World
  finish_job ctx (aborts, w) = if aborts then gfs_abort ctx w else w

-- The queue and the flag that the threads share, and the jobs that workers have popped.
pub record Shared : Type 0 where
  pub queue : List Job
  pub queueing_done : Bool
  pub popped : List Job

pub data Pass : Type 0 where
  sleeps leaves : Pass
  takes : Job → Pass

-- The locked part of `server_worker_job`.
unfoldable pub server_worker_job : Shared → Pass × Shared
server_worker_job s = elim s.queue [
  | [] ↦ (if s.queueing_done then leaves else sleeps, s)
  | job ∷ rest ↦ (takes job, record s { queue = rest; popped = s.popped ++ job ∷ [] })
]

-- `gfs_handler`: `calloc_ok` says whether there was memory for the job. It returns whether it succeeds.
unfoldable pub gfs_handler : Bool → Job → Shared → Bool × Shared
gfs_handler calloc_ok job s =
    if calloc_ok then (true, record s { queue = s.queue ++ job ∷ [] }) else (false, s)

-- `cleanup_threads`, and the indices of the threads that it then joins.
unfoldable pub cleanup_threads : Shared → Shared
cleanup_threads s = record s { queueing_done = true }
