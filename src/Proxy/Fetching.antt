-- ===== src/Proxy/Fetching.antt =====
-- What handle_with_curl.c sends of a response.
use c_exercises.Base.{
  ℕ, suc, ◌≡◌, refl, sym, ◌∙◌, ap, Bool, true, false, Option, some, List, [], ◌∷◌, ◌++◌, arith,
  ◌==◌, leb, length, append-nil, append_assoc, ℤ, pos, negsuc, minus_one, is_negative,
}
use c_exercises.Gfs.{Gfs, header, bytes, sent_behind}
use c_exercises.GetFile.Send.{gf_ok}
use c_exercises.FileServer.Sending.{SendsAll, send_loop-Continues}
use c_exercises.Proxy.{
  MemoryBuf, write_callback, Fed, Curl, send_all, send_body, respond, after_transfer,
  handle_with_curl,
}

pair-eq : (x : Bool × MemoryBuf) {b : Bool} {m : MemoryBuf} → x.0 ≡ b → x.1 ≡ m → x ≡ (b, m)
pair-eq (a, n) p q = rw (p, q) refl

length-nil : (xs : List ℕ) → 0 ≡ length xs → xs ≡ []
length-nil [] h = refl
length-nil (x ∷ xs) h = absurd (omega (arith, h))

-- A transfer that comes to its end has put the whole response behind what was in the buffer.
write_callback-Fed : {body m m' : List ℕ} → Fed write_callback body m m' → m' ≡ m ++ body
write_callback-Fed {m} Fed.nil = sym (append-nil m)
write_callback-Fed {m} (Fed.cons {rest = rest} true piece split taken more) =
    write_callback-Fed more ∙ append_assoc m piece rest ∙ ap (λ t. m ++ t) (sym split)
write_callback-Fed {m} (Fed.cons {rest = rest} false piece split taken more) =
    write_callback-Fed more
    ∙ ap (λ t. m ++ t) (sym (split ∙ ap (λ t. t ++ rest) (length-nil piece taken)))

module _ (gfs : Gfs) where
  open gfs use {World, output, gfs_sendheader, header_sent}

  -- A run that returns; a result that is not negative is the length of `msg`, and then the header for
  -- GF_OK with that length has been sent, and `msg` behind it, and nothing else.
  pub record Serves (ctx : ℕ) (msg : List ℕ) (w : World) (run : Option (ℤ × World)) : Type 0 where
    pub code : ℤ
    pub world : World
    pub returns : run ≡ some (code, world)
    pub counted : is_negative code ≡ false → code ≡ pos (length msg)
    pub sent :
        is_negative code ≡ false
        → output world ctx ≡ output w ctx ++ header gf_ok (length msg) ∷ bytes msg

  send_all-SendsAll :
      (ctx : ℕ) (buf : List ℕ) (w : World) → SendsAll gfs ctx buf w (send_all gfs ctx buf w)
  unfolding send_all
  send_all-SendsAll ctx buf w =
      send_loop-Continues gfs pos (suc (length buf)) ctx buf w 0 w (omega arith) (omega arith)
        (sym (append-nil (output w ctx)))

  send_body-Serves :
      (ctx : ℕ) (msg : List ℕ) (w w₀ : World)
      → output w ctx ≡ output w₀ ctx ++ header gf_ok (length msg) ∷ []
      → Serves ctx msg w₀ (send_body gfs ctx msg w)
  unfolding send_body
  send_body-Serves ctx [] w w₀ headed = record {
    code = pos 0;
    world = w;
    returns = refl;
    counted = λ _. refl;
    sent = λ _. headed;
  }
  send_body-Serves ctx (b ∷ bs) w w₀ headed =
      go (send_all-SendsAll ctx (b ∷ bs) w) (is_negative (send_all-SendsAll ctx (b ∷ bs) w).code)
        refl
    where
      go :
          (s : SendsAll gfs ctx (b ∷ bs) w (send_all gfs ctx (b ∷ bs) w)) (bad : Bool)
          → is_negative s.code ≡ bad
          → Serves ctx (b ∷ bs) w₀ (send_body gfs ctx (b ∷ bs) w)
      go s true bad = record {
        code = minus_one;
        world = s.world;
        returns = rw (send_body, s.returns, bad) refl;
        counted = λ e. cc;
        sent = λ e. cc;
      }
      go s false good = record {
        code = pos (length (b ∷ bs));
        world = s.world;
        returns = rw (send_body, s.returns, good) refl;
        counted = λ _. refl;
        sent = λ _.
            sent_behind _ (header gf_ok (length (b ∷ bs))) (bytes (b ∷ bs)) headed (s.sent good);
      }

  respond-Serves : (ctx : ℕ) (msg : List ℕ) (w : World) → Serves ctx msg w (respond gfs ctx msg w)
  unfolding respond
  respond-Serves ctx msg w = go (gfs_sendheader ctx gf_ok (length msg) w).0 refl
    where
      go :
          (r : ℤ)
          → (gfs_sendheader ctx gf_ok (length msg) w).0 ≡ r
          → Serves ctx msg w (respond gfs ctx msg w)
      go (negsuc k) e = record {
        code = minus_one;
        world = (gfs_sendheader ctx gf_ok (length msg) w).1;
        returns = rw (e, respond) refl;
        counted = λ x. cc;
        sent = λ x. cc;
      }
      go (pos n) e =
          let headed = header_sent ctx gf_ok (length msg) w n e in
          rw (e, respond)
            (send_body-Serves ctx msg (gfs_sendheader ctx gf_ok (length msg) w).1 w headed)

  -- When libcurl gets a response whose code is below 400, `handle_with_curl` comes to its end, and
  -- unless its result is negative it has sent just the header for GF_OK with the response's length and
  -- then the response, whose length it returns.
  pub handle_with_curl-Serves :
      (curl : Curl) (ctx : ℕ) (w : World)
      → curl.inits ≡ true
      → (curl.perform write_callback []).0 ≡ true
      → (curl.response_code == 404) ≡ false
      → leb 400 curl.response_code ≡ false
      → Serves ctx curl.body w (handle_with_curl gfs true curl ctx w)
  unfolding handle_with_curl after_transfer
  handle_with_curl-Serves curl ctx w inits performed found fine =
      let fed = write_callback-Fed (curl.whole write_callback [] performed) in
      let both : curl.perform write_callback [] ≡ (true, curl.body) =
        pair-eq (curl.perform write_callback []) performed fed in
      rw (inits, both, after_transfer, found, fine) (respond-Serves ctx curl.body w)
