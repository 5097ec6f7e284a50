-- ===== src/GetFile/Header/Tail.antt =====
-- The search of `find_header_tail` for the end of a header.
use c_exercises.Base.{
  ℕ, zero, suc, ◌+◌, ◌-◌, ◌≤◌, ◌<◌, ◌≡◌, refl, ◌∙◌, ap, inl, inr, true, false, List, [], ◌∷◌, ◌++◌,
  arith, ◌==◌, Bool-cases, ltb, ltb→lt, ltb→le, length, length-take, take, take-append-drop, drop,
  drop-append, sym, ◌≢◌, ℤ, pos, negsuc,
}
use c_exercises.Text.{lacks}
use c_exercises.GetFile.Header.{at_tail, tail_from, find_header_tail}
use c_exercises.GetFile.Send.{crlf2}

-- What a result says of the buffer: a header ends there and at no place before, or nowhere.
abbrev pub Ends : List ℕ → ℤ → Type 0
Ends buf (pos e) =
    (4 ≤ e)
    × (e ≤ length buf)
    × (at_tail (drop (e - 4) buf) ≡ true)
    × ((j : ℕ) → j + 4 < e → at_tail (drop j buf) ≡ false)
Ends buf (negsuc k) = (k ≡ 0) × ((j : ℕ) → at_tail (drop j buf) ≡ false)

at_tail-long : (s : List ℕ) → at_tail s ≡ true → 4 ≤ length s
at_tail-long [] h = cc
at_tail-long (a ∷ []) h = cc
at_tail-long (a ∷ b ∷ []) h = cc
at_tail-long (a ∷ b ∷ c ∷ []) h = cc
at_tail-long (a ∷ b ∷ c ∷ d ∷ s) h = omega arith

-- The same, for a search that has come to `i` in a buffer with the rest `s`.
abbrev EndsFrom : ℕ → List ℕ → ℤ → Type 0
EndsFrom i s (pos e) =
    (i + 4 ≤ e)
    × (e ≤ i + length s)
    × (at_tail (drop (e - 4 - i) s) ≡ true)
    × ((j : ℕ) → i + j + 4 < e → at_tail (drop j s) ≡ false)
EndsFrom i s (negsuc k) = (k ≡ 0) × ((j : ℕ) → at_tail (drop j s) ≡ false)

at_tail-nil : (j : ℕ) → at_tail (drop j []) ≡ false
at_tail-nil zero = refl
at_tail-nil (suc j) = refl

none-cons :
    (a : ℕ) (s : List ℕ)
    → at_tail (a ∷ s) ≡ false
    → ((j : ℕ) → at_tail (drop j s) ≡ false)
    → (j : ℕ) → at_tail (drop j (a ∷ s)) ≡ false
none-cons a s here rest zero = here
none-cons a s here rest (suc j) = rest j

first-cons :
    (i a : ℕ) (s : List ℕ) (e : ℕ)
    → at_tail (a ∷ s) ≡ false
    → ((j : ℕ) → i + 1 + j + 4 < e → at_tail (drop j s) ≡ false)
    → (j : ℕ) → i + j + 4 < e
    → at_tail (drop j (a ∷ s)) ≡ false
first-cons i a s e here rest zero h = here
first-cons i a s e here rest (suc j) h = rest j (omega arith)

at_tail-ne : (a : ℕ) (s : List ℕ) → (a == 13) ≡ false → at_tail (a ∷ s) ≡ false
at_tail-ne a [] h = refl
at_tail-ne a (b ∷ []) h = refl
at_tail-ne a (b ∷ c ∷ []) h = refl
at_tail-ne a (b ∷ c ∷ d ∷ s) h = rw h

EndsFrom-next :
    (i a : ℕ) (s : List ℕ) (r : ℤ)
    → at_tail (a ∷ s) ≡ false
    → EndsFrom (i + 1) s r
    → EndsFrom i (a ∷ s) r
EndsFrom-next i a s (pos e) no_tail (low, high, is, first) =
    let shift : e - 4 - i ≡ suc (e - 4 - (i + 1)) = omega arith in
    (omega arith, omega arith, rw shift is, first-cons i a s e no_tail first)
EndsFrom-next i a s (negsuc k) no_tail (z, none_at) = (z, none-cons a s no_tail none_at)

tail_from-EndsFrom : (i : ℕ) (s : List ℕ) → EndsFrom i s (tail_from i s)
unfolding tail_from
tail_from-EndsFrom i [] = (refl, at_tail-nil)
tail_from-EndsFrom i (a ∷ s) = elim (Bool-cases (at_tail (a ∷ s))) [
  | inl is ↦
      let start : i + 4 - 4 - i ≡ 0 = omega arith in
      rw (is, tail_from)
        (
          omega arith,
          omega (arith, at_tail-long (a ∷ s) is),
          rw start is,
          λ j h. absurd (omega arith),
        )
  | inr no_tail ↦
      rw (no_tail, tail_from)
        (EndsFrom-next i a s (tail_from (i + 1) s) no_tail (tail_from-EndsFrom (i + 1) s))
]

EndsFrom-zero : (buf : List ℕ) (r : ℤ) → EndsFrom 0 buf r → Ends buf r
EndsFrom-zero buf (pos e) (low, high, is, first) =
    let start : e - 4 - 0 ≡ e - 4 = omega arith in
    (omega arith, omega arith, rw start at is, λ j h. first j (omega arith))
EndsFrom-zero buf (negsuc k) h = h

-- `find_header_tail` returns the end of the first blank line, or -1 if there is none.
pub find_header_tail-Ends : (buf : List ℕ) → Ends buf (find_header_tail buf)
unfolding find_header_tail
find_header_tail-Ends buf = EndsFrom-zero buf (tail_from 0 buf) (tail_from-EndsFrom 0 buf)

-- No "\r\n\r\n" stands in the buffer.
abbrev pub NoBlankLine : List ℕ → Type 0
NoBlankLine buf = (pre post : List ℕ) → buf ≢ pre ++ (crlf2 ++ post)

-- A "\r\n\r\n" ends at `e`, and none ends before it.
pub record FirstBlankLine (buf : List ℕ) (e : ℕ) : Type 0 where
  pub front : List ℕ
  pub rest : List ℕ
  pub split : buf ≡ front ++ (crlf2 ++ rest)
  pub end : length front + 4 ≡ e
  pub first : (pre post : List ℕ) → buf ≡ pre ++ (crlf2 ++ post) → e ≤ length pre + 4

at_tail-split : (s : List ℕ) → at_tail s ≡ true → s ≡ crlf2 ++ drop 4 s
at_tail-split [] h = cc
at_tail-split (a ∷ []) h = cc
at_tail-split (a ∷ b ∷ []) h = cc
at_tail-split (a ∷ b ∷ c ∷ []) h = cc
at_tail-split (a ∷ b ∷ c ∷ d ∷ s) h = ground arith

at_tail-there :
    (buf pre post : List ℕ) → buf ≡ pre ++ (crlf2 ++ post) → at_tail (drop (length pre) buf) ≡ true
at_tail-there buf pre post h =
    ap (λ t. at_tail (drop (length pre) t)) h ∙ ap at_tail (drop-append pre (crlf2 ++ post))

-- The same result, as a split of the buffer.
pub find_header_tail-FirstBlankLine :
    (buf : List ℕ) (e : ℕ) → find_header_tail buf ≡ pos e → FirstBlankLine buf e
find_header_tail-FirstBlankLine buf e found =
    let (low, high, is, first) = rw found at (find_header_tail-Ends buf) in
    record {
      front = take (e - 4) buf;
      rest = drop 4 (drop (e - 4) buf);
      split =
          sym (take-append-drop (e - 4) buf)
          ∙ ap (λ t. take (e - 4) buf ++ t) (at_tail-split (drop (e - 4) buf) is);
      end = omega (arith, length-take (e - 4) buf (omega arith));
      first = λ pre post h. elim (Bool-cases (ltb (length pre + 4) e)) [
        | inl early ↦ absurd (
            cc (at_tail-there buf pre post h, first (length pre) (ltb→lt (length pre + 4) e early)))
        | inr late ↦ ltb→le (length pre + 4) e late
      ];
    }

pub find_header_tail-NoBlankLine :
    (buf : List ℕ) (k : ℕ) → find_header_tail buf ≡ negsuc k → NoBlankLine buf
find_header_tail-NoBlankLine buf k lacks_it pre post h =
    let (z, none_at) = rw lacks_it at (find_header_tail-Ends buf) in
    absurd (cc (at_tail-there buf pre post h, none_at (length pre)))

tail_from-append :
    (i : ℕ) (pre rest : List ℕ)
    → lacks 13 pre ≡ true
    → tail_from i (pre ++ (crlf2 ++ rest)) ≡ pos (i + (length pre + 4))
unfolding tail_from
tail_from-append i [] rest h = ap pos (omega arith)
tail_from-append i (a ∷ pre) rest h =
    let here : (a == 13) ≡ false = ground arith in
    let none_here = at_tail-ne a (pre ++ (crlf2 ++ rest)) here in
    rw (none_here, tail_from)
      (tail_from-append (i + 1) pre rest (ground arith) ∙ ap pos (omega arith))

-- Behind bytes without a carriage return, the blank line is found whatever follows it.
pub find_header_tail-append :
    (pre rest : List ℕ)
    → lacks 13 pre ≡ true
    → find_header_tail (pre ++ (crlf2 ++ rest)) ≡ pos (length pre + 4)
unfolding find_header_tail
find_header_tail-append pre rest h = tail_from-append 0 pre rest h ∙ ap pos (omega arith)

tail_from-long : (i : ℕ) (s : List ℕ) {e : ℕ} → tail_from i s ≡ pos e → 4 ≤ length s
tail_from-long i s h = long (tail_from i s) (tail_from-EndsFrom i s) h
  where
    long : (r : ℤ) → EndsFrom i s r → {e : ℕ} → r ≡ pos e → 4 ≤ length s
    long (pos e) (low, high, is, first) h = omega arith
    long (negsuc k) x h = cc

at_tail-append : (s more : List ℕ) → 4 ≤ length s → at_tail (s ++ more) ≡ at_tail s
at_tail-append [] more h = absurd (omega arith)
at_tail-append (a ∷ []) more h = absurd (omega arith)
at_tail-append (a ∷ b ∷ []) more h = absurd (omega arith)
at_tail-append (a ∷ b ∷ c ∷ []) more h = absurd (omega arith)
at_tail-append (a ∷ b ∷ c ∷ d ∷ s) more h = refl

tail_from-grow :
    (i : ℕ) (s more : List ℕ) {e : ℕ} → tail_from i s ≡ pos e → tail_from i (s ++ more) ≡ pos e
unfolding tail_from
tail_from-grow i [] more h = cc
tail_from-grow i (a ∷ s) more h =
    let same = at_tail-append (a ∷ s) more (tail_from-long i (a ∷ s) h) in
    elim (Bool-cases (at_tail (a ∷ s))) [
      | inl is ↦ rw (same, is, tail_from) (rw (is, tail_from) at h)
      | inr no_tail ↦
          rw (same, no_tail, tail_from)
            (tail_from-grow (i + 1) s more (rw (no_tail, tail_from) at h))
    ]

-- What comes later does not move the end of a header that has been found.
pub find_header_tail-grow :
    (buf more : List ℕ) {e : ℕ}
    → find_header_tail buf ≡ pos e
    → find_header_tail (buf ++ more) ≡ pos e
unfolding find_header_tail
find_header_tail-grow buf more h = tail_from-grow 0 buf more h
