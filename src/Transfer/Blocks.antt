-- ===== src/Transfer/Blocks.antt =====
-- What a client of transferserver.c is sent.
use c_exercises.Base.{
  ◌⊎◌, subst, ℕ, zero, suc, ◌≤◌, ◌<◌, ◌≡◌, refl, sym, ◌∙◌, ap, Option, none, some, List, [], ◌∷◌,
  ◌++◌, arith, length, take, drop, take-append-drop, take-nil_end, length-drop, length-append,
  append-nil, append_assoc, ℤ,
}
use c_exercises.Net.{Net}
use c_exercises.Net.Ends.{Duplex, Accepts, FailedSend}
use c_exercises.Transfer.{bufsize, send_block, send_blocks, serve_file}
use c_exercises.Transfer.Sending.{Sends, send_block-Sends}

-- `out` is what a stream that had been handed `so_far` is handed of `file`: of each block of 512 bytes,
-- the last one being what is left, a front part, behind which the rest of the block is left out only if
-- a `send` of just this rest took no byte.
pub data Gapped (net : Net) (fd : ℤ) : List ℕ → List ℕ → List ℕ → Type 0 where
  finish : {so_far file out : List ℕ} → file ≡ [] → out ≡ [] → Gapped net fd so_far file out
  cut :
      {so_far file out : List ℕ} (part lost out' : List ℕ)
      → take bufsize file ≡ part ++ lost
      → (lost ≡ []) ⊎ FailedSend net fd (so_far ++ part) lost
      → out ≡ part ++ out'
      → Gapped net fd (so_far ++ part) (drop bufsize file) out'
      → Gapped net fd so_far file out

front : (n : ℕ) (file bytes : List ℕ) → take n file ≡ bytes → file ≡ bytes ++ drop n file
front n file bytes taken = sym (take-append-drop n file) ∙ ap (λ t. t ++ drop n file) taken

module _ (net : Net) where
  open net use {World, send, sent, shutdown, close}

  -- A run that ends, and what it has sent of the file: it leaves out an end of a block where a `send` of
  -- that end took no byte, and none if every `send` on the connection takes a byte at least.
  pub record SendsFile (fd : ℤ) (file : List ℕ) (w : World) (run : Option World) : Type 0 where
    pub world : World
    pub returns : run ≡ some world
    pub out : List ℕ
    pub gapped : Gapped net fd (sent w fd) file out
    pub sent_out : sent world fd ≡ sent w fd ++ out
    pub whole : Accepts net fd → out ≡ file

  abbrev Continues : ℕ → ℤ → Type 0
  Continues fuel fd =
      (file : List ℕ) (w : World)
      → length file < fuel
      → SendsFile fd file w (send_blocks net fuel fd file w)

  next_block :
      (fd : ℤ) (file bytes : List ℕ) (w : World) (run : Option World) (r : Sends net fd bytes w run)
      → take bufsize file ≡ bytes
      → (next : Option World) → SendsFile fd (drop bufsize file) r.world next
      → SendsFile fd file w next
  next_block fd file bytes w run r taken next later =
      let split : file ≡ bytes ++ drop bufsize file = front bufsize file bytes taken in
      record {
        world = later.world;
        returns = later.returns;
        out = r.part ++ later.out;
        gapped =
            Gapped.cut r.part r.lost later.out (taken ∙ r.split) r.stopped refl
              (subst (λ t. Gapped net fd t (drop bufsize file) later.out) r.sent_part later.gapped);
        sent_out =
            later.sent_out
            ∙ ap (λ t. t ++ later.out) r.sent_part
            ∙ append_assoc (sent w fd) r.part later.out;
        whole = λ accepts.
            let all : r.part ≡ bytes =
              sym (append-nil r.part)
              ∙ ap (λ t. r.part ++ t) (sym (r.whole accepts))
              ∙ sym r.split in
            ap (λ t. r.part ++ t) (later.whole accepts)
            ∙ ap (λ t. t ++ drop bufsize file) all
            ∙ sym split;
      }

  send_blocks-round :
      (fuel : ℕ) (fd : ℤ) (file : List ℕ) (w : World) (bytes : List ℕ)
      → Continues fuel fd
      → length file < suc fuel
      → take bufsize file ≡ bytes
      → SendsFile fd file w (send_blocks net (suc fuel) fd file w)
  unfolding send_blocks
  send_blocks-round fuel fd file w [] rest h taken =
      let no_more : file ≡ [] = take-nil_end 511 file taken in
      rw (taken, send_blocks)
        (record {
          world = w;
          returns = refl;
          out = [];
          gapped = Gapped.finish no_more refl;
          sent_out = sym (append-nil (sent w fd));
          whole = λ accepts. sym no_more;
        })
  send_blocks-round fuel fd file w (b ∷ bs) rest h taken =
      let r = send_block-Sends net (suc (length (b ∷ bs))) fd (b ∷ bs) 0 w (omega arith) in
      let longer : suc (length bs) ≤ length file = omega (
        arith,
        ap length (front bufsize file (b ∷ bs) taken),
        length-append (b ∷ bs) (drop bufsize file),
      ) in
      rw (taken, send_blocks, r.returns)
        (next_block fd file (b ∷ bs) w (send_block net (suc (length (b ∷ bs))) fd (b ∷ bs) 0 w) r
          taken (send_blocks net fuel fd (drop bufsize file) r.world)
          (rest (drop bufsize file) r.world (omega (arith, length-drop bufsize file))))

  send_blocks-SendsFile : (fuel : ℕ) (fd : ℤ) → Continues fuel fd
  send_blocks-SendsFile zero fd file w h = absurd (omega arith)
  send_blocks-SendsFile (suc fuel) fd file w h =
      send_blocks-round fuel fd file w (take bufsize file) (send_blocks-SendsFile fuel fd) h refl

  module _ (duplex : Duplex net) where
    open duplex use {shutdown_sent, close_sent}

    closing :
        (fd : ℤ) (file : List ℕ) (w : World) (run : Option World)
        → SendsFile fd file w run
        → SendsFile fd file w
            (elim run [ none ↦ none | some w' ↦ some (close fd (shutdown fd w')) ])
    closing fd file w run r = rw r.returns (record {
      world = close fd (shutdown fd r.world);
      returns = refl;
      out = r.out;
      gapped = r.gapped;
      sent_out = close_sent fd (shutdown fd r.world) ∙ shutdown_sent fd r.world ∙ r.sent_out;
      whole = r.whole;
    })

    -- The transfer server comes to the end of a client. What it has sent is the file without the ends of
    -- some of its 512-byte blocks; if every `send` takes a byte at least, it is the whole file.
    pub serve_file-SendsFile :
        (fd : ℤ) (file : List ℕ) (w : World) → SendsFile fd file w (serve_file net fd file w)
    unfolding serve_file
    serve_file-SendsFile fd file w =
        closing fd file w (send_blocks net (suc (length file)) fd file w)
          (send_blocks-SendsFile (suc (length file)) fd file w (omega arith))
