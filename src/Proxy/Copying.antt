-- ===== src/Proxy/Copying.antt =====
-- What handle_with_file.c sends of a file.
use c_exercises.Base.{
  ℕ, zero, suc, ◌+◌, ◌-◌, ◌≤◌, ◌<◌, ◌≡◌, refl, sym, ◌∙◌, ap, true, Option, none, some, List, [],
  ◌∷◌, ◌++◌, arith, ◌==◌, ltb, Bool-cases, inl, inr, ltb→lt, ltb→le, ==→eq, length, take, drop,
  take-length, take-append-take-drop, append-nil, ℤ, pos, negsuc,
}
use c_exercises.Gfs.{Gfs, bytes, sent_next}
use c_exercises.GetFile.Send.{gf_ok}
use c_exercises.Shm.Channel.Invariant.{ReadsFile}
use c_exercises.Proxy.{server_failure, file_loop, file_body, Opened, handle_with_file}

module _ (gfs : Gfs) where
  open gfs use {World, output, gfs_sendheader, gfs_send, data_sent}

  -- A run that returns; a result that is not negative is a number of bytes, `len` at least, and that
  -- many bytes of the file have been sent.
  pub record Copies (ctx : ℕ) (file : List ℕ) (len : ℕ) (w : World) (run : Option (ℤ × World))
      : Type 0 where
    pub code : ℤ
    pub world : World
    pub returns : run ≡ some (code, world)
    pub sent :
        (n : ℕ)
        → code ≡ pos n
        → (len ≤ n) × (output world ctx ≡ output w ctx ++ bytes (take n file))

  pos-inj : (a b : ℕ) → pos a ≡ pos b → a ≡ b
  pos-inj a b h = cc

  fails :
      (ctx : ℕ) (file : List ℕ) (len : ℕ) (w w' : World)
      → Copies ctx file len w (some (server_failure, w'))
  fails ctx file len w w' = record {
    code = server_failure;
    world = w';
    returns = refl;
    sent = λ n e. cc;
  }

  module _ (ctx : ℕ) (file : List ℕ) (len : ℕ) (read : ℕ → Option (List ℕ))
      (is : ReadsFile file read) where
    abbrev Continues : ℕ → World → Type 0
    Continues fuel w₀ =
        (done : ℕ) (w : World)
        → len - done < fuel
        → output w ctx ≡ output w₀ ctx ++ bytes (take done file)
        → Copies ctx file len w₀ (file_loop gfs fuel read ctx len done w)

    file_loop-sent :
        (fuel : ℕ) (w₀ : World)
        → Continues fuel w₀
        → (done : ℕ) (w : World) → ltb done len ≡ true
        → len - done < suc fuel
        → output w ctx ≡ output w₀ ctx ++ bytes (take done file)
        → (b : ℕ) (bs : List ℕ) → read done ≡ some (b ∷ bs)
        → (r : ℤ) → (gfs_send ctx (b ∷ bs) w).0 ≡ r
        → Copies ctx file len w₀ (file_loop gfs (suc fuel) read ctx len done w)
    unfolding file_loop
    file_loop-sent fuel w₀ rest done w more h o b bs got (negsuc k) e =
        rw (more, file_loop, got, e) (fails ctx file len w₀ (gfs_send ctx (b ∷ bs) w).1)
    file_loop-sent fuel w₀ rest done w more h o b bs got (pos n) e =
        elim (Bool-cases (n == length (b ∷ bs))) [
          | inr short ↦
              rw (more, file_loop, got, e, short)
                (fails ctx file len w₀ (gfs_send ctx (b ∷ bs) w).1)
          | inl full ↦
              let at : n ≡ length (b ∷ bs) = ==→eq n (length (b ∷ bs)) full in
              let front : b ∷ bs ≡ take (length (b ∷ bs)) (drop done file) =
                is.reads done (b ∷ bs) got in
              let all : take n (b ∷ bs) ≡ b ∷ bs = take-length (b ∷ bs) n (omega (arith, at)) in
              let out = (data_sent ctx (b ∷ bs) w n e).1 in
              rw (more, file_loop, got, e, full)
                (rest (done + n) (gfs_send ctx (b ∷ bs) w).1
                  (omega (arith, at, ltb→lt done len more))
                  (sent_next _ (take done file) (take n (b ∷ bs)) o out
                    ∙ ap (λ t. output w₀ ctx ++ bytes t)
                        (ap (λ t. take done file ++ t)
                            (all ∙ front ∙ ap (λ k. take k (drop done file)) (sym at))
                          ∙ take-append-take-drop done n file)))
        ]

    file_loop-read :
        (fuel : ℕ) (w₀ : World)
        → Continues fuel w₀
        → (done : ℕ) (w : World) → ltb done len ≡ true
        → len - done < suc fuel
        → output w ctx ≡ output w₀ ctx ++ bytes (take done file)
        → (r : Option (List ℕ)) → read done ≡ r
        → Copies ctx file len w₀ (file_loop gfs (suc fuel) read ctx len done w)
    unfolding file_loop
    file_loop-read fuel w₀ rest done w more h o none e =
        rw (more, file_loop, e) (fails ctx file len w₀ w)
    file_loop-read fuel w₀ rest done w more h o (some []) e =
        rw (more, file_loop, e) (fails ctx file len w₀ w)
    file_loop-read fuel w₀ rest done w more h o (some (b ∷ bs)) e =
        file_loop-sent fuel w₀ rest done w more h o b bs e (gfs_send ctx (b ∷ bs) w).0 refl

    file_loop-Continues : (fuel : ℕ) (w₀ : World) → Continues fuel w₀
    unfolding file_loop
    file_loop-Continues zero w₀ done w h o = absurd (omega arith)
    file_loop-Continues (suc fuel) w₀ done w h o = elim (Bool-cases (ltb done len)) [
      | inl more ↦
          file_loop-read fuel w₀ (file_loop-Continues fuel w₀) done w more h o (read done) refl
      | inr over ↦
          rw (over, file_loop)
            (record {
              code = pos done;
              world = w;
              returns = refl;
              sent = λ n e.
                  let same : done ≡ n = pos-inj done n e in
                  (
                    omega (arith, same, ltb→le done len over),
                    o ∙ ap (λ k. output w₀ ctx ++ bytes (take k file)) same,
                  );
            })
    ]

    -- On an opened file of which `fstat` gives the size `len` and `read` reads the bytes, `handle_with_file` comes to its end; a result
    -- that is not negative is a number of bytes, `len` at least, and that many bytes of the file have been
    -- sent behind the header.
    pub handle_with_file-Copies :
        (w : World)
        → Copies ctx file len
            (gfs_sendheader ctx gf_ok len w).1
            (handle_with_file gfs Opened.opened (some len) read ctx w)
    unfolding handle_with_file file_body
    handle_with_file-Copies w =
        let w' = (gfs_sendheader ctx gf_ok len w).1 in
        file_loop-Continues (suc len) w' 0 w' (omega arith) (sym (append-nil (output w' ctx)))
