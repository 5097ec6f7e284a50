-- ===== src/FileServer/Sending.antt =====
-- A job of projects/mtgf/handler.c is answered with the whole file, or aborted.
use c_exercises.Base.{
  ℕ, zero, suc, ◌+◌, ◌-◌, ◌≤◌, ◌<◌, ◌≡◌, refl, sym, ◌∙◌, ap, true, false, Option, some, List, ◌++◌,
  arith, ltb, Bool-cases, inl, inr, ltb→lt, ltb→le, length, length-drop, take, drop, take-length,
  take-append-take-drop, append-nil, ℤ, pos, negsuc, minus_one, is_negative,
}
use c_exercises.Gfs.{Gfs, bytes, sent_next}
use c_exercises.FileServer.{send_loop, send_all}

module _ (gfs : Gfs) where
  open gfs use {World, output, gfs_send, data_sent}

  -- A call that is to send `msg`: it returns, and unless it reports a failure it has sent `msg` and
  -- nothing else.
  pub record SendsAll (ctx : ℕ) (msg : List ℕ) (w : World) (run : Option (ℤ × World)) : Type 0 where
    pub code : ℤ
    pub world : World
    pub returns : run ≡ some (code, world)
    pub sent : is_negative code ≡ false → output world ctx ≡ output w ctx ++ bytes msg

  abbrev pub Continues : (ℕ → ℤ) → ℕ → ℕ → List ℕ → World → Type 0
  Continues done fuel ctx buf w₀ =
      (offset : ℕ) (w : World)
      → offset ≤ length buf
      → length buf - offset < fuel
      → output w ctx ≡ output w₀ ctx ++ bytes (take offset buf)
      → SendsAll ctx buf w₀ (send_loop gfs done fuel ctx buf offset w)

  send_loop-round :
      (done : ℕ → ℤ) (fuel ctx : ℕ) (buf : List ℕ) (w₀ : World)
      → Continues done fuel ctx buf w₀
      → (offset : ℕ) (w : World) → ltb offset (length buf) ≡ true
      → length buf - offset < suc fuel
      → output w ctx ≡ output w₀ ctx ++ bytes (take offset buf)
      → (r : ℤ) → (gfs_send ctx (drop offset buf) w).0 ≡ r
      → SendsAll ctx buf w₀ (send_loop gfs done (suc fuel) ctx buf offset w)
  unfolding send_loop
  send_loop-round done fuel ctx buf w₀ rest offset w more h o (negsuc n) r = record {
    code = minus_one;
    world = (gfs_send ctx (drop offset buf) w).1;
    returns = rw (more, send_loop, r) refl;
    sent = λ bad. cc;
  }
  send_loop-round done fuel ctx buf w₀ rest offset w more h o (pos zero) r = record {
    code = minus_one;
    world = (gfs_send ctx (drop offset buf) w).1;
    returns = rw (more, send_loop, r) refl;
    sent = λ bad. cc;
  }
  send_loop-round done fuel ctx buf w₀ rest offset w more h o (pos (suc n)) r =
      let (fits, out) = data_sent ctx (drop offset buf) w (suc n) r in
      let small : suc n ≤ length buf - offset = omega (arith, length-drop offset buf, fits) in
      let lt : offset < length buf = ltb→lt offset (length buf) more in
      rw (more, send_loop, r)
        (rest (offset + suc n) (gfs_send ctx (drop offset buf) w).1 (omega arith) (omega arith) (
          sent_next _ (take offset buf) (take (suc n) (drop offset buf)) o out
          ∙ ap (λ t. output w₀ ctx ++ bytes t) (take-append-take-drop offset (suc n) buf)))

  pub send_loop-Continues :
      (done : ℕ → ℤ) (fuel ctx : ℕ) (buf : List ℕ) (w₀ : World) → Continues done fuel ctx buf w₀
  unfolding send_loop
  send_loop-Continues done zero ctx buf w₀ offset w le h o = absurd (omega arith)
  send_loop-Continues done (suc fuel) ctx buf w₀ offset w le h o =
      elim (Bool-cases (ltb offset (length buf))) [
        | inl more ↦
            send_loop-round done fuel ctx buf w₀ (send_loop-Continues done fuel ctx buf w₀) offset w
              more h o (gfs_send ctx (drop offset buf) w).0 refl
        | inr over ↦ record {
          code = done offset;
          world = w;
          returns = rw (over, send_loop) refl;
          sent = λ _.
              o
              ∙ ap (λ t. output w₀ ctx ++ bytes t)
                  (take-length buf offset (ltb→le offset (length buf) over));
        }
      ]

  -- `send_all` ends, and what it says is so.
  pub send_all-SendsAll :
      (ctx : ℕ) (buf : List ℕ) (w : World) → SendsAll ctx buf w (send_all gfs ctx buf w)
  unfolding send_all
  send_all-SendsAll ctx buf w =
      send_loop-Continues (λ _. pos 0) (suc (length buf)) ctx buf w 0 w (omega arith) (omega arith)
        (sym (append-nil (output w ctx)))
