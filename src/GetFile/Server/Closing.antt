-- ===== src/GetFile/Server/Closing.antt =====
-- No loop of gfserver.c over a connection closes a descriptor: only `gfs_abort` and the end of the
-- accept loop's body do.
use c_exercises.Base.{
  ℕ, zero, suc, ◌+◌, ◌-◌, ◌≡◌, refl, subst, ◌∙◌, inl, inr, true, false, Option, none, some, List,
  [], ◌∷◌, ◌++◌, arith, ◌==◌, ltb, leb, Bool-cases, length, take, drop, ℤ, pos, negsuc,
}
use c_exercises.Net.{Net, Received, failed, got}
use c_exercises.Net.Ends.{Descriptors}
use c_exercises.GetFile.Send.{Context, header_size, header_text, send_loop, gfs_sendheader}
use c_exercises.GetFile.Header.{find_header_tail, buffer_size, read_header}

module _ (net : Net) (descriptors : Descriptors net) where
  open net use {World, send, recv}
  open descriptors use {closed, send_closed, recv_closed}

  -- A run that ends has closed nothing.
  abbrev pub Keeps : {A : Type 0} → World → Option (A × World) → Type 0
  Keeps w none = Unit
  Keeps w (some (x, w')) = closed w' ≡ closed w

  pub Keeps-at :
      {A : Type 0} {w : World} (run : Option (A × World)) (x : A × World)
      → run ≡ some x
      → Keeps w run
      → closed x.1 ≡ closed w
  Keeps-at {w} run x e kept = subst (Keeps w) e kept

  unchanged_by :
      {A : Type 0} {w w₁ : World}
      → closed w₁ ≡ closed w
      → (run : Option (A × World)) → Keeps w₁ run
      → Keeps w run
  unchanged_by same none later = tt
  unchanged_by same (some x) later = later ∙ same

  send_loop-went :
      (fuel : ℕ) (fd : ℤ) (buf : List ℕ) (len total : ℕ) (w : World)
      → ((total' : ℕ) (w' : World) → Keeps w' (send_loop net fuel fd buf len total' w'))
      → ltb total len ≡ true
      → (r : ℤ) → (send fd (take (len - total) (drop total buf)) w).0 ≡ r
      → Keeps w (send_loop net (suc fuel) fd buf len total w)
  unfolding send_loop
  send_loop-went fuel fd buf len total w rest more (negsuc k) r =
      rw (more, send_loop, r) (send_closed fd (take (len - total) (drop total buf)) w)
  send_loop-went fuel fd buf len total w rest more (pos zero) r =
      rw (more, send_loop, r) (send_closed fd (take (len - total) (drop total buf)) w)
  send_loop-went fuel fd buf len total w rest more (pos (suc n)) r =
      let w₁ = (send fd (take (len - total) (drop total buf)) w).1 in
      let nonzero : (suc n == 0) ≡ false = ground arith in
      rw (more, send_loop, r, nonzero)
        (unchanged_by (send_closed fd (take (len - total) (drop total buf)) w)
          (send_loop net fuel fd buf len (total + suc n) w₁) (rest (total + suc n) w₁))

  send_loop-Keeps :
      (fuel : ℕ) (fd : ℤ) (buf : List ℕ) (len total : ℕ) (w : World)
      → Keeps w (send_loop net fuel fd buf len total w)
  unfolding send_loop
  send_loop-Keeps zero fd buf len total w = tt
  send_loop-Keeps (suc fuel) fd buf len total w = elim (Bool-cases (ltb total len)) [
    | inr done ↦ rw (done, send_loop) refl
    | inl more ↦
        send_loop-went fuel fd buf len total w (send_loop-Keeps fuel fd buf len) more
          (send fd (take (len - total) (drop total buf)) w).0 refl
  ]

  pub gfs_sendheader-Keeps :
      (ctx : Context) (status file_len : ℕ) (w : World)
      → Keeps w (gfs_sendheader net (some ctx) status file_len w)
  unfolding gfs_sendheader
  gfs_sendheader-Keeps ctx status file_len w =
      elim (Bool-cases (leb header_size (length (header_text status file_len)))) [
        | inl long ↦ rw (long, gfs_sendheader) refl
        | inr fits ↦
            rw (fits, gfs_sendheader)
              (send_loop-Keeps (suc (length (header_text status file_len))) ctx.cont_cfd
                (header_text status file_len) (length (header_text status file_len)) 0 w)
      ]

  module _ (fuel : ℕ) (fd : ℤ) (buf : List ℕ) (w : World)
      (rest : (more : List ℕ) (w' : World) → Keeps w' (read_header net fuel fd more w'))
      (room : (length buf == buffer_size) ≡ false) where
    read_header-looked :
        (b : ℕ) (bs : List ℕ)
        → (recv fd (buffer_size - length buf) w).0 ≡ got (b ∷ bs)
        → (t : ℤ) → find_header_tail (buf ++ b ∷ bs) ≡ t
        → Keeps w (read_header net (suc fuel) fd buf w)
    unfolding read_header
    read_header-looked b bs r (pos e) t =
        rw (room, read_header, r, t) (recv_closed fd (buffer_size - length buf) w)
    read_header-looked b bs r (negsuc k) t =
        let w₁ = (recv fd (buffer_size - length buf) w).1 in
        rw (room, read_header, r, t)
          (unchanged_by (recv_closed fd (buffer_size - length buf) w)
            (read_header net fuel fd (buf ++ b ∷ bs) w₁) (rest (buf ++ b ∷ bs) w₁))

    read_header-came :
        (r : Received)
        → (recv fd (buffer_size - length buf) w).0 ≡ r
        → Keeps w (read_header net (suc fuel) fd buf w)
    unfolding read_header
    read_header-came failed r =
        rw (room, read_header, r) (recv_closed fd (buffer_size - length buf) w)
    read_header-came (got []) r =
        rw (room, read_header, r) (recv_closed fd (buffer_size - length buf) w)
    read_header-came (got (b ∷ bs)) r =
        read_header-looked b bs r (find_header_tail (buf ++ b ∷ bs)) refl

  pub read_header-Keeps :
      (fuel : ℕ) (fd : ℤ) (buf : List ℕ) (w : World) → Keeps w (read_header net fuel fd buf w)
  unfolding read_header
  read_header-Keeps zero fd buf w = tt
  read_header-Keeps (suc fuel) fd buf w = elim (Bool-cases (length buf == buffer_size)) [
    | inl at_end ↦ rw (at_end, read_header) refl
    | inr room ↦
        read_header-came fuel fd buf w (read_header-Keeps fuel fd) room
          (recv fd (buffer_size - length buf) w).0 refl
  ]
