-- ===== src/GetFile/Send/Delivery.antt =====
-- `gfs_send` and `gfs_sendheader` end, and send all of their bytes or report a failure.
use native.Mathlib.Numerals.{add-one}
use c_exercises.Base.{
  ℕ, zero, suc, ◌+◌, ◌-◌, ◌≤◌, ◌<◌, ◌≡◌, refl, sym, ap, ◌∙◌, inl, inr, ◌≢◌, subst, Bool, true,
  false, Option, none, some, List, [], ◌∷◌, ◌++◌, arith, ◌==◌, ltb, leb, Bool-cases, length,
  length-append, take, drop, take-take, take-length, length-take, length-drop, append_assoc,
  append-nil, take-append-take-drop, ℤ, pos, negsuc, minus_one, ltb→le, ltb→lt, lt→ltb, lt→leb,
  if◌then◌else◌, is_negative,
}
use c_exercises.Net.{Net}
use c_exercises.Net.Ends.{FailedSend}
use c_exercises.Text.{show_size, size_mod}
use c_exercises.Text.Numbers.{length-show_size}
use c_exercises.GetFile.Send.{
  Context, gf_ok, status_text, crlf2, header_text, header_size, send_loop, gfs_send, gfs_sendheader,
  gfs_abort,
}

length-status_text : (status : ℕ) → length (status_text status) ≤ 14
length-status_text status = ground arith

length-size_text :
    (ok : Bool) (n : ℕ) → n < size_mod → length (if ok then 32 ∷ show_size n else []) ≤ 21
length-size_text true n h = omega (arith, length-show_size n h)
length-size_text false n h = omega arith

-- The longest header is far shorter than its buffer.
pub length-header_text : (status n : ℕ) → n < size_mod → length (header_text status n) ≤ 47
unfolding header_text
length-header_text status n h =
    let size = if status == gf_ok then 32 ∷ show_size n else [] in
    let outer = length-append (status_text status) (size ++ crlf2) in
    let inner = length-append size crlf2 in
    omega (arith, outer, inner, length-status_text status, length-size_text (status == gf_ok) n h)

header-fits :
    (status n : ℕ) → n < size_mod → leb header_size (length (header_text status n)) ≡ false
header-fits status n h =
    lt→leb header_size (length (header_text status n))
      (omega (arith, length-header_text status n h))

module _ (net : Net) where
  open net use {World, send, sent, send_some, send_none, shutdown, close}

  -- What a call that is to send `msg` on `fd` has done: it returns the length and has sent `msg`, or
  -- it returns -1 and has sent a part of it that is not the whole, behind which a `send` of the rest
  -- took no byte.
  abbrev pub Delivered : ℤ → List ℕ → World → ℤ × World → Type 0
  Delivered fd msg w (pos n, w') = (n ≡ length msg) × (sent w' fd ≡ sent w fd ++ msg)
  Delivered fd msg w (negsuc k, w') =
      (k ≡ 0)
      × (m : ℕ) × (m < length msg)
      × (sent w' fd ≡ sent w fd ++ take m msg)
      × FailedSend net fd (sent w fd ++ take m msg) (drop m msg)

  pub record Delivers (fd : ℤ) (msg : List ℕ) (w : World) (run : Option (ℤ × World)) : Type 0 where
    pub result : ℤ × World
    pub returns : run ≡ some result
    pub delivered : Delivered fd msg w result

  -- The part of the buffer that is offered to `send`.
  abbrev piece : List ℕ → ℕ → List ℕ
  piece buf total = take (length buf - total) (drop total buf)

  length-piece : (buf : List ℕ) (total : ℕ) → length (piece buf total) ≡ length buf - total
  length-piece buf total =
      length-take (length buf - total) (drop total buf) (omega (arith, length-drop total buf))

  piece-rest : (buf : List ℕ) (total : ℕ) → piece buf total ≡ drop total buf
  piece-rest buf total =
      take-length (drop total buf) (length buf - total) (omega (arith, length-drop total buf))

  -- One successful `send` extends the prefix that has been sent.
  sent-piece :
      (fd : ℤ) (buf : List ℕ) (total n : ℕ) (w₀ w : World)
      → sent w fd ≡ sent w₀ fd ++ take total buf
      → (send fd (piece buf total) w).0 ≡ pos n
      → (n ≤ length buf - total)
        × (sent (send fd (piece buf total) w).1 fd ≡ sent w₀ fd ++ take (total + n) buf)
  sent-piece fd buf total n w₀ w e r =
      let (le, s) = send_some fd (piece buf total) w n r in
      let fits : n ≤ length buf - total = omega (arith, le, length-piece buf total) in
      (
        fits,
        s
            ∙ rw
                (
                  e,
                  take-take n (length buf - total) (drop total buf) fits,
                  append_assoc,
                  take-append-take-drop total n buf,
                )
                refl,
      )

  send_loop-stops :
      (fuel : ℕ) (fd : ℤ) (buf : List ℕ) (total : ℕ) (w₀ w : World)
      → ltb total (length buf) ≡ true
      → sent w fd ≡ sent w₀ fd ++ take total buf
      → ((n : ℕ) → (send fd (piece buf total) w).0 ≢ pos (suc n))
      → sent (send fd (piece buf total) w).1 fd ≡ sent w₀ fd ++ take total buf
      → send_loop net (suc fuel) fd buf (length buf) total w
        ≡ some (minus_one, (send fd (piece buf total) w).1)
      → Delivers fd buf w₀ (send_loop net (suc fuel) fd buf (length buf) total w)
  send_loop-stops fuel fd buf total w₀ w more before refused s e = record {
    result = (minus_one, (send fd (piece buf total) w).1);
    returns = e;
    delivered = (
      refl,
      total,
      ltb→lt total (length buf) more,
      s,
      record {
        before = w;
        sent_before = before;
        took_none =
            λ n. subst (λ t. (send fd t w).0 ≢ pos (suc n)) (piece-rest buf total) (refused n);
      },
    );
  }

  -- From where on the loop delivers, whatever the world is by then.
  abbrev Continues : ℕ → ℤ → List ℕ → World → Type 0
  Continues fuel fd buf w₀ =
      (total : ℕ) (w : World)
      → total ≤ length buf
      → length buf - total < fuel
      → sent w fd ≡ sent w₀ fd ++ take total buf
      → Delivers fd buf w₀ (send_loop net fuel fd buf (length buf) total w)

  send_loop-round :
      (fuel : ℕ) (fd : ℤ) (buf : List ℕ) (total : ℕ) (w₀ w : World)
      → Continues fuel fd buf w₀
      → ltb total (length buf) ≡ true
      → length buf - total < suc fuel
      → sent w fd ≡ sent w₀ fd ++ take total buf
      → (r : ℤ) → (send fd (piece buf total) w).0 ≡ r
      → Delivers fd buf w₀ (send_loop net (suc fuel) fd buf (length buf) total w)
  unfolding send_loop
  send_loop-round fuel fd buf total w₀ w rest more h e (negsuc k) r =
      send_loop-stops fuel fd buf total w₀ w more e (λ n took. cc (took, r))
        (send_none fd (piece buf total) w k r ∙ e) (rw (more, send_loop, r))
  send_loop-round fuel fd buf total w₀ w rest more h e (pos zero) r =
      let same : total + 0 ≡ total = omega arith in
      send_loop-stops fuel fd buf total w₀ w more e (λ n took. cc (took, r))
        (rw same at (sent-piece fd buf total 0 w₀ w e r).1) (rw (more, send_loop, r))
  send_loop-round fuel fd buf total w₀ w rest more h e (pos (suc n)) r =
      let (fits, s) = sent-piece fd buf total (suc n) w₀ w e r in
      let lt = ltb→lt total (length buf) more in
      let nonzero : (suc n == 0) ≡ false = ground arith in
      rw (more, send_loop, r, nonzero)
        (rest (total + suc n) (send fd (piece buf total) w).1 (omega arith) (omega arith) s)

  send_loop-Delivers : (fuel : ℕ) (fd : ℤ) (buf : List ℕ) (w₀ : World) → Continues fuel fd buf w₀
  unfolding send_loop
  send_loop-Delivers zero fd buf w₀ total w le h e = absurd (omega arith)
  send_loop-Delivers (suc fuel) fd buf w₀ total w le h e =
      elim (Bool-cases (ltb total (length buf))) [
        | inr done ↦
            let end : length buf ≤ total = ltb→le total (length buf) done in
            record {
              result = (pos total, w);
              returns = rw (done, send_loop);
              delivered = (omega arith, e ∙ ap (λ t. sent w₀ fd ++ t) (take-length buf total end));
            }
        | inl more ↦
            send_loop-round fuel fd buf total w₀ w (send_loop-Delivers fuel fd buf w₀) more h e
              (send fd (piece buf total) w).0 refl
      ]

  -- `gfs_send` on a context ends; it returns the length after sending the whole buffer, and -1 after
  -- sending a part of it that is not the whole, when a `send` of the rest took no byte.
  pub gfs_send-Delivers :
      (ctx : Context) (buf : List ℕ) (w : World)
      → Delivers ctx.cont_cfd buf w (gfs_send net (some ctx) (some buf) (length buf) w)
  unfolding gfs_send
  gfs_send-Delivers ctx buf w =
      send_loop-Delivers (suc (length buf)) ctx.cont_cfd buf w 0 w (omega arith) (omega arith)
        (sym (append-nil (sent w ctx.cont_cfd)))

  -- The same of the loop that `gfc_perform` sends its request with.
  pub send_loop-all :
      (fd : ℤ) (buf : List ℕ) (w : World)
      → Delivers fd buf w (send_loop net (length buf + 1) fd buf (length buf) 0 w)
  send_loop-all fd buf w = rw (add-one (length buf)) (
      send_loop-Delivers (suc (length buf)) fd buf w 0 w (omega arith) (omega arith)
        (sym (append-nil (sent w fd))))

  -- For a length below 2 ^ 64 no header is turned down for its size: `gfs_sendheader` on a context sends
  -- the whole header and returns its length, or returns -1 after sending a part that is not the whole,
  -- and then only because a `send` of the rest took no byte.
  pub gfs_sendheader-Delivers :
      (ctx : Context) (status file_len : ℕ) (w : World)
      → file_len < size_mod
      → Delivers ctx.cont_cfd
          (header_text status file_len)
          w
          (gfs_sendheader net (some ctx) status file_len w)
  unfolding gfs_sendheader
  gfs_sendheader-Delivers ctx status n w h =
      rw (header-fits status n h) (gfs_send-Delivers ctx (header_text status n) w)

  -- Without a context, or without data to send that is not there, nothing happens and -1 is returned.
  pub send_refused :
      (data' : Option (List ℕ)) (len status file_len : ℕ) (ctx : Context) (w : World)
      → (gfs_send net none data' len w ≡ some (minus_one, w))
        × (gfs_sendheader net none status file_len w ≡ some (minus_one, w))
        × (0 < len → gfs_send net (some ctx) none len w ≡ some (minus_one, w))
  unfolding gfs_send gfs_sendheader
  send_refused data' len status n ctx w = (refl, refl, λ h. rw (lt→ltb 0 len h))

  -- A context that has been aborted has no descriptor, and aborting it again does nothing.
  pub gfs_abort-abort :
      (ctx : Context) (w : World)
      → let (ctx', w') = gfs_abort net (some ctx) w in
        (gfs_abort net ctx' w' ≡ (ctx', w'))
        × (is_negative ctx.cont_cfd ≡ false → ctx' ≡ some (record { cont_cfd = minus_one }))
  unfolding gfs_abort
  gfs_abort-abort ctx w = elim (Bool-cases (is_negative ctx.cont_cfd)) [
    | inl closed ↦ rw (closed, closed) (refl, λ open_fd. cc)
    | inr open_fd ↦ rw open_fd (refl, λ _. refl)
  ]
