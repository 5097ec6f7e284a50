-- ===== src/CacheDaemon/Reading.antt =====
-- What `read_all` of simplecached.c reads.
use c_exercises.Base.{
  ℕ, zero, suc, ◌-◌, ◌≤◌, ◌<◌, ◌≡◌, refl, sym, ap, ◌∙◌, ◌⊎◌, inl, inr, Option, some, List, [], ◌∷◌,
  ◌++◌, arith, length, length-append, append-nil, append_assoc, ℤ, pos, minus_one,
}
use c_exercises.Net.{Net, Received, failed, got}
use c_exercises.CacheDaemon.{read_all, read_loop}

module _ (net : Net) where
  open net use {World, recv, recv_some, incoming}

  -- A run that ends: the buffer behind what it held is a front part of the stream. Either the buffer is
  -- full and its length is the result, or the result is -1 and bytes are missing.
  pub record Reads (fd : ℤ) (missing : ℕ) (buf : List ℕ) (w : World)
      (run : Option ((ℤ × List ℕ) × World)) : Type 0 where
    pub result : ℤ
    pub part : List ℕ
    pub world : World
    pub returns : run ≡ some ((result, buf ++ part), world)
    pub rest : List ℕ
    pub order : incoming w fd ≡ part ++ rest
    pub outcome :
        ((result ≡ pos (length (buf ++ part)))
          × (length part ≡ missing)
          × (rest ≡ incoming world fd))
        ⊎ ((result ≡ minus_one) × (length part < missing))

  stops :
      (fd : ℤ) (missing : ℕ) (buf : List ℕ) (w w' : World)
      → Reads fd (suc missing) buf w (some ((minus_one, buf), w'))
  stops fd missing buf w w' = record {
    result = minus_one;
    part = [];
    world = w';
    returns = ap (λ t. some ((minus_one, t), w')) (sym (append-nil buf));
    rest = incoming w fd;
    order = refl;
    outcome = inr (refl, omega arith);
  }

  -- Behind a `recv` of some bytes.
  resume :
      (fd : ℤ) (missing : ℕ) (buf d : List ℕ) (w w' : World) (run : Option ((ℤ × List ℕ) × World))
      → incoming w fd ≡ d ++ incoming w' fd
      → length d ≤ missing
      → Reads fd (missing - length d) (buf ++ d) w' run
      → Reads fd missing buf w run
  resume fd missing buf d w w' run split fits later =
      let same : (buf ++ d) ++ later.part ≡ buf ++ (d ++ later.part) =
        append_assoc buf d later.part in
      let total = length-append d later.part in
      record {
        result = later.result;
        part = d ++ later.part;
        world = later.world;
        returns = later.returns ∙ ap (λ t. some ((later.result, t), later.world)) same;
        rest = later.rest;
        order = split ∙ ap (λ t. d ++ t) later.order ∙ sym (append_assoc d later.part later.rest);
        outcome = elim later.outcome [
          | inl full ↦
              inl
                (full.0 ∙ ap (λ t. pos (length t)) same, omega (arith, total, full.1, fits), full.2)
          | inr short ↦ inr (short.0, omega (arith, total, short.1, fits))
        ];
      }

  -- A round behind `recv`.
  after_recv :
      (fuel missing : ℕ) (fd : ℤ) (buf : List ℕ) (w : World) (r : Received × World)
      → ((d : List ℕ)
          → r.0 ≡ got d
          → (length d ≤ suc missing) × (incoming w fd ≡ d ++ incoming r.1 fd))
      → ((left : ℕ) (buf' : List ℕ) (w' : World)
          → left < suc missing
          → Reads fd left buf' w' (read_loop net fuel fd left buf' w'))
      → Reads fd (suc missing) buf w (elim r.0 [
        | failed ↦ some ((minus_one, buf), r.1)
        | got d ↦ elim d [
          | [] ↦ some ((minus_one, buf), r.1)
          | b ∷ bs ↦ read_loop net fuel fd (suc missing - length (b ∷ bs)) (buf ++ b ∷ bs) r.1
        ]
      ])
  after_recv fuel missing fd buf w (failed, w') law next = stops fd missing buf w w'
  after_recv fuel missing fd buf w (got [], w') law next = stops fd missing buf w w'
  after_recv fuel missing fd buf w (got (b ∷ bs), w') law next =
      let (fits, split) = law (b ∷ bs) refl in
      resume fd (suc missing) buf (b ∷ bs) w w'
        (read_loop net fuel fd (suc missing - length (b ∷ bs)) (buf ++ b ∷ bs) w') split fits
        (next (suc missing - length (b ∷ bs)) (buf ++ b ∷ bs) w' (omega (arith, fits)))

  read_loop-Reads :
      (fuel missing : ℕ) (fd : ℤ) (buf : List ℕ) (w : World)
      → missing < fuel
      → Reads fd missing buf w (read_loop net fuel fd missing buf w)
  unfolding read_loop
  read_loop-Reads zero missing fd buf w h = absurd (omega arith)
  read_loop-Reads (suc fuel) zero fd buf w h = record {
    result = pos (length buf);
    part = [];
    world = w;
    returns = ap (λ t. some ((pos (length buf), t), w)) (sym (append-nil buf));
    rest = incoming w fd;
    order = refl;
    outcome = inl (ap (λ t. pos (length t)) (sym (append-nil buf)), refl, refl);
  }
  read_loop-Reads (suc fuel) (suc missing) fd buf w h =
      after_recv fuel missing fd buf w (recv fd (suc missing) w) (recv_some fd (suc missing) w)
        (λ left buf' w' less. read_loop-Reads fuel left fd buf' w' (omega (arith, h, less)))

  -- `read_all` ends, and its buffer holds the next bytes of the stream in order, however `read` cuts
  -- them: all that were asked for, if it returns their number, and fewer, if it returns -1. It has
  -- no other result.
  pub read_all-Reads : (fd : ℤ) (len : ℕ) (w : World) → Reads fd len [] w (read_all net fd len w)
  unfolding read_all
  read_all-Reads fd len w = read_loop-Reads (suc len) len fd [] w (omega arith)
