-- ===== src/GetFile/Send.antt =====
-- `gfs_send`, `gfs_sendheader` and `gfs_abort` of projects/gflib/gfserver.c. A `gfcontext_t **` is
-- an option: `none` stands for a null pointer, or a pointer to one.
pub mod Delivery
use c_exercises.Base.{
  ℕ, zero, suc, ◌+◌, ◌-◌, Bool, true, false, ◌&&◌, not, Option, none, some, List, [], ◌∷◌, ◌++◌,
  ◌==◌, ltb, leb, if◌then◌else◌, length, take, drop, ℤ, pos, negsuc, minus_one, is_negative,
}
use c_exercises.Net.{Net, Effect, pure, call}
use c_exercises.Text.{codes, show_size}

-- `struct gfcontext_t`
pub record Context : Type 0 where
  pub cont_cfd : ℤ

-- The macros of gfserver.h.
abbrev pub gf_ok : ℕ
gf_ok = 200

abbrev pub gf_file_not_found : ℕ
gf_file_not_found = 400

abbrev pub gf_error : ℕ
gf_error = 500

abbrev pub gf_invalid : ℕ
gf_invalid = 600

abbrev pub crlf2 : List ℕ
crlf2 = 13 ∷ 10 ∷ 13 ∷ 10 ∷ []

-- The switch of `gfs_sendheader`, with `GF_INVALID` for any other code.
abbrev pub status_text : ℕ → List ℕ
status_text status =
    if status == gf_ok
    then codes "OK"
    else if status == gf_file_not_found
    then codes "FILE_NOT_FOUND"
    else if status == gf_error
    then codes "ERROR"
    else codes "INVALID"

-- What `snprintf` prints: the length only for `GF_OK`.
unfoldable pub header_text : ℕ → ℕ → List ℕ
header_text status file_len =
    codes "GETFILE "
    ++ (status_text status ++ ((if status == gf_ok then 32 ∷ show_size file_len else []) ++ crlf2))

abbrev pub header_size : ℕ
header_size = 256

module _ (net : Net) where
  open net use {World, send, shutdown, close}

  -- `while (totalBytes < len)`: the result is what `gfs_send` returns. Each round that goes on sends
  -- a byte at least.
  unfoldable pub send_loop : ℕ → ℤ → List ℕ → (len total : ℕ) → Effect World ℤ
  send_loop zero fd buf len total w = none
  send_loop (suc fuel) fd buf len total w =
      let r = send fd (take (len - total) (drop total buf)) w in
      elim (ltb total len) [
        | false ↦ some (pos total, w)
        | true ↦ (elim r.0 [
          | negsuc n ↦ some (minus_one, r.1)
          | pos n ↦ (elim (n == 0) [
            | true ↦ some (minus_one, r.1)
            | false ↦ send_loop fuel fd buf len (total + n) r.1
          ])
        ])
      ]

  send_data : Context → Option (List ℕ) → ℕ → Effect World ℤ
  unfolding send_loop
  send_data ctx none len = if ltb 0 len then pure minus_one else pure (pos 0)
  send_data ctx (some buf) len = send_loop (suc len) ctx.cont_cfd buf len 0

  unfoldable pub gfs_send : Option Context → Option (List ℕ) → ℕ → Effect World ℤ
  unfolding send_data
  gfs_send none data' len = pure minus_one
  gfs_send (some ctx) data' len = send_data ctx data' len

  unfoldable pub gfs_sendheader : Option Context → ℕ → ℕ → Effect World ℤ
  unfolding gfs_send header_text
  gfs_sendheader none status file_len = pure minus_one
  gfs_sendheader (some ctx) status file_len =
      if leb header_size (length (header_text status file_len))
      then pure minus_one
      else gfs_send (some ctx) (some (header_text status file_len))
          (length (header_text status file_len))

  -- `gfs_abort` on a context, and the context after it: the descriptor is closed once, and then
  -- forgotten.
  unfoldable pub abort_context : Context → World → Context × World
  abort_context ctx w =
      if is_negative ctx.cont_cfd
      then (ctx, w)
      else (record { cont_cfd = minus_one }, close ctx.cont_cfd (shutdown ctx.cont_cfd w))

  unfoldable pub gfs_abort : Option Context → World → Option Context × World
  unfolding abort_context
  gfs_abort none w = (none, w)
  gfs_abort (some ctx) w = let (ctx', w') = abort_context ctx w in (some ctx', w')
