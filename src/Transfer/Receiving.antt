-- ===== src/Transfer/Receiving.antt =====
-- What transferclient.c writes to its file.
use c_exercises.Base.{
  ℕ, zero, suc, ◌<◌, ◌≡◌, refl, sym, ◌∙◌, ap, Bool, true, false, Option, some, List, [], ◌∷◌, ◌++◌,
  arith, length, length-append, append-nil, append_assoc, ℤ,
}
use c_exercises.Net.{Net, Received, failed, got}
use c_exercises.Net.Ends.{Duplex, Sink}
use c_exercises.Transfer.{bufsize, receive_loop, receive_file}
use c_exercises.Transfer.Writing.{write_loop-Writes}

module _ (net : Net) (sink : Sink) where
  open net use {World, recv, recv_some, incoming, close}
  open sink use {File, written}

  -- A run that ends, and what it has written of the stream: a front part, and all if it exits with 0.
  pub record Receives (fd : ℤ) (w : World) (file : File) (run : Option (ℕ × World × File))
      : Type 0 where
    pub end : ℕ × World × File
    pub returns : run ≡ some end
    pub part : List ℕ
    pub lost : List ℕ
    pub split : incoming w fd ≡ part ++ lost
    pub on_file : written end.2 ≡ written file ++ part
    pub whole : end.0 ≡ 0 → lost ≡ []

  ends_at :
      (code : ℕ) (fd : ℤ) (w w' : World) (file file' : File) (part lost : List ℕ)
      → incoming w fd ≡ part ++ lost
      → written file' ≡ written file ++ part
      → (code ≡ 0 → lost ≡ [])
      → Receives fd w file (some (code, w', file'))
  ends_at code fd w w' file file' part lost split s never = record {
    end = (code, w', file');
    returns = refl;
    part = part;
    lost = lost;
    split = split;
    on_file = s;
    whole = never;
  }

  abbrev Continues : ℕ → ℤ → Type 0
  Continues fuel fd =
      (w : World) (file : File)
      → length (incoming w fd) < fuel
      → Receives fd w file (receive_loop net sink fuel fd w file)

  -- The round behind a `recv` of `d`, by what the loop over `write` has done.
  after_write :
      (fuel : ℕ) (fd : ℤ) (w w₁ : World) (file : File) (d part lost : List ℕ) (r : Bool × File)
      → Continues fuel fd
      → length (incoming w₁ fd) < fuel
      → incoming w fd ≡ d ++ incoming w₁ fd
      → d ≡ part ++ lost
      → written r.1 ≡ written file ++ part
      → (r.0 ≡ true → lost ≡ [])
      → Receives fd w file (elim r.0 [
        | false ↦ some (1, close fd w₁, r.1)
        | true ↦ receive_loop net sink fuel fd w₁ r.1
      ])
  after_write fuel fd w w₁ file d part lost (false, file') rest h split halves s never =
      ends_at 1 fd w (close fd w₁) file file' part (lost ++ incoming w₁ fd)
        (split ∙ ap (λ t. t ++ incoming w₁ fd) halves ∙ append_assoc part lost (incoming w₁ fd)) s
        (λ e. cc e)
  after_write fuel fd w w₁ file d part lost (true, file') rest h split halves s whole =
      let later = rest w₁ file' h in
      let all : d ≡ part = halves ∙ ap (λ t. part ++ t) (whole refl) ∙ append-nil part in
      record {
        end = later.end;
        returns = later.returns;
        part = part ++ later.part;
        lost = later.lost;
        split =
            split
            ∙ ap (λ t. t ++ incoming w₁ fd) all
            ∙ ap (λ t. part ++ t) later.split
            ∙ sym (append_assoc part later.part later.lost);
        on_file =
            later.on_file
            ∙ ap (λ t. t ++ later.part) s
            ∙ append_assoc (written file) part later.part;
        whole = later.whole;
      }

  module _ (duplex : Duplex net) where
    open duplex use {recv_end}

    receive_loop-round :
        (fuel : ℕ) (fd : ℤ) (w : World) (file : File) (r : Received)
        → Continues fuel fd
        → length (incoming w fd) < suc fuel
        → (recv fd bufsize w).0 ≡ r
        → Receives fd w file (receive_loop net sink (suc fuel) fd w file)
    unfolding receive_loop
    receive_loop-round fuel fd w file failed rest h r =
        rw (r, receive_loop)
          (ends_at 1 fd w (close fd (recv fd bufsize w).1) file file [] (incoming w fd) refl
            (sym (append-nil (written file))) (λ e. cc e))
    receive_loop-round fuel fd w file (got []) rest h r =
        rw (r, receive_loop)
          (ends_at 0 fd w (recv fd bufsize w).1 file file [] [] (recv_end fd 511 w r)
            (sym (append-nil (written file))) (λ _. refl))
    receive_loop-round fuel fd w file (got (b ∷ bs)) rest h r =
        let w₁ = (recv fd bufsize w).1 in
        let split = (recv_some fd bufsize w (b ∷ bs) r).1 in
        let o = write_loop-Writes net sink (suc (length (b ∷ bs))) (b ∷ bs) 0 file (omega arith) in
        let shorter : length (incoming w₁ fd) < fuel =
          omega (arith, ap length split, length-append (b ∷ bs) (incoming w₁ fd)) in
        rw (r, receive_loop, o.returns)
          (after_write fuel fd w w₁ file (b ∷ bs) o.part o.lost o.result rest shorter split o.split
            o.on_file o.whole)

    receive_loop-Receives : (fuel : ℕ) (fd : ℤ) → Continues fuel fd
    receive_loop-Receives zero fd w file h = absurd (omega arith)
    receive_loop-Receives (suc fuel) fd w file h =
        receive_loop-round fuel fd w file (recv fd bufsize w).0 (receive_loop-Receives fuel fd) h
          refl

    -- The transfer client comes to an end. It has written a front part of the stream to its file, and
    -- all of it if it exits with 0.
    pub receive_file-Receives :
        (fd : ℤ) (w : World) (file : File) → Receives fd w file (receive_file net sink fd w file)
    unfolding receive_file
    receive_file-Receives fd w file =
        receive_loop-Receives (suc (length (incoming w fd))) fd w file (omega arith)
