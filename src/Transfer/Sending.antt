-- ===== src/Transfer/Sending.antt =====
-- What the loop over `send` in transferserver.c sends of a block.
use c_exercises.Base.{
  ℕ, zero, suc, ◌+◌, ◌-◌, ◌<◌, ◌≡◌, refl, sym, ◌∙◌, ap, true, Option, some, List, [], ◌++◌, arith,
  ltb, Bool-cases, inl, inr, ◌⊎◌, ◌≢◌, subst, length, take, drop, take-append-drop, drop-drop,
  drop-past, length-drop, append-nil, append_assoc, ltb→lt, ltb→le, ℤ, pos, negsuc,
}
use c_exercises.Net.{Net}
use c_exercises.Net.Ends.{Accepts, FailedSend}
use c_exercises.Transfer.{send_block}

module _ (net : Net) where
  open net use {World, send, sent, send_some, send_none}

  -- A run that ends, and what it has sent of `bytes`: a front part, which is all unless a `send` of the
  -- rest took no byte, and all if every `send` on the connection takes a byte at least.
  pub record Sends (fd : ℤ) (bytes : List ℕ) (w : World) (run : Option World) : Type 0 where
    pub world : World
    pub returns : run ≡ some world
    pub part : List ℕ
    pub lost : List ℕ
    pub split : bytes ≡ part ++ lost
    pub sent_part : sent world fd ≡ sent w fd ++ part
    pub stopped : (lost ≡ []) ⊎ FailedSend net fd (sent w fd ++ part) lost
    pub whole : Accepts net fd → lost ≡ []

  -- The loop breaks off at a `send` that has taken nothing.
  breaks_off :
      (fd : ℤ) (bytes : List ℕ) (w w' : World)
      → sent w' fd ≡ sent w fd
      → (bytes ≡ []) ⊎ FailedSend net fd (sent w fd ++ []) bytes
      → (Accepts net fd → bytes ≡ [])
      → Sends fd bytes w (some w')
  breaks_off fd bytes w w' same stopped never = record {
    world = w';
    returns = refl;
    part = [];
    lost = bytes;
    split = refl;
    sent_part = same ∙ sym (append-nil (sent w fd));
    stopped = stopped;
    whole = never;
  }

  -- It goes on behind what a `send` has taken.
  goes_on :
      (fd : ℤ) (bytes front behind : List ℕ) (w w₁ : World) (run : Option World)
      → bytes ≡ front ++ behind
      → sent w₁ fd ≡ sent w fd ++ front
      → Sends fd behind w₁ run
      → Sends fd bytes w run
  goes_on fd bytes front behind w w₁ run split s later = record {
    world = later.world;
    returns = later.returns;
    part = front ++ later.part;
    lost = later.lost;
    split =
        split ∙ ap (λ t. front ++ t) later.split ∙ sym (append_assoc front later.part later.lost);
    sent_part =
        later.sent_part ∙ ap (λ t. t ++ later.part) s ∙ append_assoc (sent w fd) front later.part;
    stopped = elim later.stopped [
      | inl all ↦ inl all
      | inr refused ↦ inr (
          subst (λ t. FailedSend net fd t later.lost)
            (ap (λ t. t ++ later.part) s ∙ append_assoc (sent w fd) front later.part) refused)
    ];
    whole = later.whole;
  }

  refused_at :
      (fd : ℤ) (bytes : List ℕ) (w : World)
      → ((n : ℕ) → (send fd bytes w).0 ≢ pos (suc n))
      → (bytes ≡ []) ⊎ FailedSend net fd (sent w fd ++ []) bytes
  refused_at fd bytes w never =
      inr (record { before = w; sent_before = sym (append-nil (sent w fd)); took_none = never })

  taken_nothing :
      (fd : ℤ) (bytes : List ℕ) (w : World)
      → 0 < length bytes
      → ((n : ℕ) → (send fd bytes w).0 ≡ pos (suc n) → bytes ≡ [])
      → Accepts net fd
      → bytes ≡ []
  taken_nothing fd bytes w some_byte never accepts =
      let (n, e) = accepts bytes w some_byte in never n e

  -- From where on the loop over one block sends.
  abbrev pub Continues : ℕ → ℤ → List ℕ → Type 0
  Continues fuel fd block =
      (offset : ℕ) (w : World)
      → length block - offset < fuel
      → Sends fd (drop offset block) w (send_block net fuel fd block offset w)

  send_block-round :
      (fuel : ℕ) (fd : ℤ) (block : List ℕ) (offset : ℕ) (w : World) (r : ℤ)
      → Continues fuel fd block
      → ltb offset (length block) ≡ true
      → length block - offset < suc fuel
      → (send fd (drop offset block) w).0 ≡ r
      → Sends fd (drop offset block) w (send_block net (suc fuel) fd block offset w)
  unfolding send_block
  send_block-round fuel fd block offset w (negsuc k) rest more h r =
      let bytes = drop offset block in
      rw (more, send_block, r)
        (breaks_off fd bytes w (send fd bytes w).1 (send_none fd bytes w k r)
          (refused_at fd bytes w (λ n took. cc (took, r)))
          (taken_nothing fd bytes w
            (omega (arith, length-drop offset block, ltb→lt offset (length block) more))
            (λ n e. absurd (cc (e, r)))))
  send_block-round fuel fd block offset w (pos zero) rest more h r =
      let bytes = drop offset block in
      rw (more, send_block, r)
        (breaks_off fd bytes w (send fd bytes w).1
          ((send_some fd bytes w 0 r).1 ∙ append-nil (sent w fd))
          (refused_at fd bytes w (λ n took. cc (took, r)))
          (taken_nothing fd bytes w
            (omega (arith, length-drop offset block, ltb→lt offset (length block) more))
            (λ n e. absurd (cc (e, r)))))
  send_block-round fuel fd block offset w (pos (suc n)) rest more h r =
      let bytes = drop offset block in
      let lt = ltb→lt offset (length block) more in
      rw (more, send_block, r)
        (goes_on fd bytes (take (suc n) bytes) (drop (offset + suc n) block) w (send fd bytes w).1
          (send_block net fuel fd block (offset + suc n) (send fd bytes w).1)
          (sym (take-append-drop (suc n) bytes)
            ∙ ap (λ t. take (suc n) bytes ++ t) (drop-drop offset (suc n) block))
          (send_some fd bytes w (suc n) r).1
          (rest (offset + suc n) (send fd bytes w).1 (omega arith)))

  pub send_block-Sends : (fuel : ℕ) (fd : ℤ) (block : List ℕ) → Continues fuel fd block
  unfolding send_block
  send_block-Sends zero fd block offset w h = absurd (omega arith)
  send_block-Sends (suc fuel) fd block offset w h = elim (Bool-cases (ltb offset (length block))) [
    | inl more ↦
        send_block-round fuel fd block offset w (send fd (drop offset block) w).0
          (send_block-Sends fuel fd block) more h refl
    | inr done ↦
        let past = drop-past offset block (ltb→le offset (length block) done) in
        rw (done, send_block) (breaks_off fd (drop offset block) w w refl (inl past) (λ _. past))
  ]
