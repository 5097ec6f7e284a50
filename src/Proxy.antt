-- ===== src/Proxy.antt =====
-- The handlers of projects/proxycacheserver/server: handle_with_file.c and handle_with_curl.c.
pub mod Copying
pub mod Fetching
pub mod Starting
mod Tests
use c_exercises.Base.{
  ◌≡◌, ℕ, zero, suc, ◌+◌, ◌-◌, Bool, true, false, not, ◌&&◌, Option, none, some, List, [], ◌∷◌,
  ◌++◌, ◌==◌, ltb, leb, if◌then◌else◌, length, ℤ, pos, negsuc, minus_one, is_negative,
}
use c_exercises.Gfs.{Gfs}
use c_exercises.GetFile.Send.{gf_ok, gf_file_not_found, gf_error}
use c_exercises.FileServer.{send_loop}

-- `SERVER_FAILURE`
abbrev pub server_failure : ℤ
server_failure = minus_one

-- What `open` answers for the path: a descriptor, ENOENT, or another error.
pub data Opened : Type 0 where
  opened missing broken : Opened

-- `MemoryBuf`; its size is the length.
abbrev pub MemoryBuf : Type 0
MemoryBuf = List ℕ

-- `write_callback` on `size * mem` bytes: what it returns, and the buffer.
abbrev pub write_callback : Bool → List ℕ → MemoryBuf → ℕ × MemoryBuf
write_callback realloc_ok body memory =
    if realloc_ok then (length body, memory ++ body) else (0, memory)

-- A transfer calls the callback on one piece of the response after the other, until one call does not
-- return the piece's length. `grows` says for each call whether its `realloc` succeeds.
pub data Fed (cb : Bool → List ℕ → MemoryBuf → ℕ × MemoryBuf)
    : List ℕ → MemoryBuf → MemoryBuf → Type 0 where
  nil : {m : MemoryBuf} → Fed cb [] m m
  cons :
      {m m' : MemoryBuf} {body rest : List ℕ} (grows : Bool) (piece : List ℕ)
      → body ≡ piece ++ rest
      → (cb grows piece m).0 ≡ length piece
      → Fed cb rest (cb grows piece m).1 m'
      → Fed cb body m m'

-- What the handler uses of libcurl: whether a session can be made, `curl_easy_perform` with a callback
-- on a buffer, which says whether it ends with CURLE_OK, and the response's code. On CURLE_OK the
-- callback has been fed the whole body of the response.
pub record Curl : Type 0 where
  pub inits : Bool
  pub body : List ℕ
  pub response_code : ℕ
  pub perform : (Bool → List ℕ → MemoryBuf → ℕ × MemoryBuf) → MemoryBuf → Bool × MemoryBuf
  pub whole :
      (cb : Bool → List ℕ → MemoryBuf → ℕ × MemoryBuf) (m : MemoryBuf)
      → (perform cb m).0 ≡ true
      → Fed cb body m (perform cb m).1

module _ (gfs : Gfs) where
  open gfs use {World, gfs_sendheader, gfs_send}

  -- The loop of `handle_with_file`; `read` reads at most BUFSIZE bytes at the descriptor's offset, which
  -- is the number of bytes transferred. The fuel bounds the rounds.
  unfoldable pub file_loop : ℕ → (ℕ → Option (List ℕ)) → ℕ → ℕ → ℕ → World → Option (ℤ × World)
  file_loop zero read ctx file_len transferred w = none
  file_loop (suc fuel) read ctx file_len transferred w = elim (ltb transferred file_len) [
    | false ↦ some (pos transferred, w)
    | true ↦ elim (read transferred) [
      | none ↦ some (server_failure, w)
      | some d ↦ elim d [
        | [] ↦ some (server_failure, w)
        | b ∷ bs ↦
            let r = gfs_send ctx (b ∷ bs) w in
            elim r.0 [
              | negsuc k ↦ some (server_failure, r.1)
              | pos n ↦ elim (n == length (b ∷ bs)) [
                | false ↦ some (server_failure, r.1)
                | true ↦ file_loop fuel read ctx file_len (transferred + n) r.1
              ]
            ]
      ]
    ]
  ]

  unfoldable pub file_body : (ℕ → Option (List ℕ)) → ℕ → Option ℕ → World → Option (ℤ × World)
  file_body read ctx none w = some (server_failure, w)
  file_body read ctx (some file_len) w =
      file_loop (suc file_len) read ctx file_len 0 (gfs_sendheader ctx gf_ok file_len w).1

  -- `fstat` is the size that it gives.
  unfoldable pub handle_with_file :
      Opened → Option ℕ → (ℕ → Option (List ℕ)) → ℕ → World → Option (ℤ × World)
  handle_with_file Opened.missing fstat read ctx w = some (gfs_sendheader ctx gf_file_not_found 0 w)
  handle_with_file Opened.broken fstat read ctx w = some (server_failure, w)
  handle_with_file Opened.opened fstat read ctx w = file_body read ctx fstat w

  -- `send_all` of handle_with_curl.c.
  unfoldable pub send_all : ℕ → List ℕ → World → Option (ℤ × World)
  send_all ctx buf w = send_loop gfs pos (suc (length buf)) ctx buf 0 w

  unfoldable pub refuse : ℕ → ℕ → World → Option (ℤ × World)
  refuse ctx status w = some (minus_one, (gfs_sendheader ctx status 0 w).1)

  -- What follows the second header: `send_all`, if there is something to send.
  unfoldable pub send_body : ℕ → MemoryBuf → World → Option (ℤ × World)
  send_body ctx [] w = some (pos 0, w)
  send_body ctx (b ∷ bs) w = elim (send_all ctx (b ∷ bs) w) [
    | none ↦ none
    | some (code, w') ↦ some (if is_negative code then minus_one else pos (length (b ∷ bs)), w')
  ]

  unfoldable pub respond : ℕ → MemoryBuf → World → Option (ℤ × World)
  respond ctx memory w =
      let r = gfs_sendheader ctx gf_ok (length memory) w in
      elim (is_negative r.0) [ true ↦ some (minus_one, r.1) | false ↦ send_body ctx memory r.1 ]

  -- From the result of the transfer on.
  unfoldable pub after_transfer : ℕ → Bool × MemoryBuf → ℕ → World → Option (ℤ × World)
  after_transfer ctx (false, memory) response_code w = refuse ctx gf_file_not_found w
  after_transfer ctx (true, memory) response_code w = elim (response_code == 404) [
    | true ↦ refuse ctx gf_file_not_found w
    | false ↦ elim (leb 400 response_code) [
      | true ↦ refuse ctx gf_error w
      | false ↦ respond ctx memory w
    ]
  ]

  -- With a context, a path and a base URL; `malloc_ok` says whether the first byte could be had.
  unfoldable pub handle_with_curl : Bool → Curl → ℕ → World → Option (ℤ × World)
  handle_with_curl malloc_ok curl ctx w =
      if malloc_ok && curl.inits
      then after_transfer ctx (curl.perform write_callback []) curl.response_code w
      else some (minus_one, w)
