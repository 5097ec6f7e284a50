-- ===== src/Transfer/Writing.antt =====
-- What the loop over `write` in transferclient.c writes of a piece.
use c_exercises.Base.{
  ℕ, zero, suc, ◌+◌, ◌-◌, ◌<◌, ◌≡◌, refl, sym, ◌∙◌, ap, Bool, true, false, Option, some, List, [],
  ◌++◌, arith, ltb, Bool-cases, inl, inr, length, take, drop, take-append-drop, drop-drop,
  drop-past, append-nil, append_assoc, ltb→lt, ltb→le, ℤ, pos, negsuc,
}
use c_exercises.Net.{Net}
use c_exercises.Net.Ends.{Sink}
use c_exercises.Transfer.{write_loop}

module _ (net : Net) (sink : Sink) where
  open sink use {File, written, write, write_some, write_none}

  -- A run that ends, and what it has written of `bytes`: a front part, and all if it says so.
  pub record Writes (bytes : List ℕ) (file : File) (run : Option (Bool × File)) : Type 0 where
    pub result : Bool × File
    pub returns : run ≡ some result
    pub part : List ℕ
    pub lost : List ℕ
    pub split : bytes ≡ part ++ lost
    pub on_file : written result.1 ≡ written file ++ part
    pub whole : result.0 ≡ true → lost ≡ []

  write_stops :
      (b : Bool) (bytes : List ℕ) (file file' : File)
      → written file' ≡ written file
      → (b ≡ true → bytes ≡ [])
      → Writes bytes file (some (b, file'))
  write_stops b bytes file file' same never = record {
    result = (b, file');
    returns = refl;
    part = [];
    lost = bytes;
    split = refl;
    on_file = same ∙ sym (append-nil (written file));
    whole = never;
  }

  write_goes_on :
      (bytes front behind : List ℕ) (file file₁ : File) (run : Option (Bool × File))
      → bytes ≡ front ++ behind
      → written file₁ ≡ written file ++ front
      → Writes behind file₁ run
      → Writes bytes file run
  write_goes_on bytes front behind file file₁ run split s later = record {
    result = later.result;
    returns = later.returns;
    part = front ++ later.part;
    lost = later.lost;
    split =
        split ∙ ap (λ t. front ++ t) later.split ∙ sym (append_assoc front later.part later.lost);
    on_file =
        later.on_file ∙ ap (λ t. t ++ later.part) s ∙ append_assoc (written file) front later.part;
    whole = later.whole;
  }

  abbrev pub Continues : ℕ → List ℕ → Type 0
  Continues fuel piece =
      (offset : ℕ) (file : File)
      → length piece - offset < fuel
      → Writes (drop offset piece) file (write_loop net sink fuel piece offset file)

  write_loop-round :
      (fuel : ℕ) (piece : List ℕ) (offset : ℕ) (file : File) (r : ℤ)
      → Continues fuel piece
      → ltb offset (length piece) ≡ true
      → length piece - offset < suc fuel
      → (write (drop offset piece) file).0 ≡ r
      → Writes (drop offset piece) file (write_loop net sink (suc fuel) piece offset file)
  unfolding write_loop
  write_loop-round fuel piece offset file (negsuc k) rest more h r =
      let bytes = drop offset piece in
      rw (more, write_loop, r)
        (write_stops false bytes file (write bytes file).1 (write_none bytes file k r) (λ e. cc e))
  write_loop-round fuel piece offset file (pos zero) rest more h r =
      let bytes = drop offset piece in
      rw (more, write_loop, r)
        (write_stops false bytes file (write bytes file).1
          ((write_some bytes file 0 r).1 ∙ append-nil (written file)) (λ e. cc e))
  write_loop-round fuel piece offset file (pos (suc n)) rest more h r =
      let bytes = drop offset piece in
      let lt = ltb→lt offset (length piece) more in
      rw (more, write_loop, r)
        (write_goes_on bytes (take (suc n) bytes) (drop (offset + suc n) piece) file
          (write bytes file).1
          (write_loop net sink fuel piece (offset + suc n) (write bytes file).1)
          (sym (take-append-drop (suc n) bytes)
            ∙ ap (λ t. take (suc n) bytes ++ t) (drop-drop offset (suc n) piece))
          (write_some bytes file (suc n) r).1
          (rest (offset + suc n) (write bytes file).1 (omega arith)))

  pub write_loop-Writes : (fuel : ℕ) (piece : List ℕ) → Continues fuel piece
  unfolding write_loop
  write_loop-Writes zero piece offset file h = absurd (omega arith)
  write_loop-Writes (suc fuel) piece offset file h = elim (Bool-cases (ltb offset (length piece))) [
    | inl more ↦
        write_loop-round fuel piece offset file (write (drop offset piece) file).0
          (write_loop-Writes fuel piece) more h refl
    | inr done ↦
        let past = drop-past offset piece (ltb→le offset (length piece) done) in
        rw (done, write_loop) (write_stops true (drop offset piece) file file refl (λ _. past))
  ]
