-- ===== src/Shm/Daemon/Outcomes.antt =====
-- What becomes of the proxy's handler when the daemon cannot serve a request.
use c_exercises.Base.{ℕ, ◌≡◌, refl, ◌∙◌, ap, List, [], ◌∷◌}
use c_exercises.Shm.Channel.{Reader, start, Pread, Sends, writer_step, reader_step, Move, step, run}
use c_exercises.Shm.Daemon.{Answers, Stage, handle_cache_request, send_fail, begin}

refused-reads :
    (pread : Pread) (size : ℕ) (s s' : Sends)
    → (run pread size (Move.reads s ∷ Move.reads s' ∷ []) (begin Stage.refuses)).reader
      ≡ Reader.missing
unfolding run step reader_step begin send_fail start
refused-reads pread size s s' = refl

still :
    (pread : Pread) (size : ℕ) (m : Move)
    → step pread size m (begin Stage.silent) ≡ begin Stage.silent
unfolding step writer_step reader_step begin start
still pread size Move.writes = refl
still pread size (Move.reads s) = refl

run-still :
    (pread : Pread) (size : ℕ) (ms : List Move)
    → run pread size ms (begin Stage.silent) ≡ begin Stage.silent
unfolding run
run-still pread size [] = refl
run-still pread size (m ∷ ms) =
    ap (run pread size ms) (still pread size m) ∙ run-still pread size ms

begin-silent : (begin Stage.silent).reader ≡ Reader.waits
unfolding begin start
begin-silent = refl

-- A request that goes to `send_fail` reaches the client as GF_FILE_NOT_FOUND: the proxy's handler gets a
-- packet and ends with that answer, whatever its own sends do.
request_refused :
    (header_size : ℕ) (a : Answers) (pread : Pread) (size : ℕ) (s s' : Sends)
    → (handle_cache_request header_size a).0 ≡ Stage.refuses
    → (run pread size
        (Move.reads s ∷ Move.reads s' ∷ [])
        (begin (handle_cache_request header_size a).0)).reader
      ≡ Reader.missing
request_refused header_size a pread size s s' e = rw e (refused-reads pread size s s')

-- A request that goes to `cleanup` at once is never answered: whatever steps follow, the proxy's handler
-- still waits for a packet.
pub request_silent :
    (header_size : ℕ) (a : Answers) (pread : Pread) (size : ℕ) (ms : List Move)
    → (handle_cache_request header_size a).0 ≡ Stage.silent
    → (run pread size ms (begin (handle_cache_request header_size a).0)).reader ≡ Reader.waits
request_silent header_size a pread size ms e =
    rw e (ap (λ c. c.reader) (run-still pread size ms) ∙ begin-silent)
