-- ===== src/GetFile/Server/Words.antt =====
-- What a request is that gfserver.c takes: the words that `sscanf` finds, described by the text.
use mathlib.Core.Option.{some-injective, some-ne-none}
use c_exercises.Base.{
  ==→eq, ℕ, zero, suc, ◌<◌, ◌≡◌, ◌≢◌, refl, sym, ◌∙◌, ap, subst, inl, inr, Bool, true, false,
  Option, none, some, List, [], ◌∷◌, ◌++◌, arith, Bool-cases, length, take, same, if◌then◌else◌,
}
use c_exercises.Text.{codes, c_string, is_space, skip_space, take_word, nonempty_word, scan_word}
use c_exercises.GetFile.Server.{
  header_len, is_absolute, scan_first, scan_second, scan_third, scan_request, check_request,
  parse_request,
}

abbrev pub all_space : List ℕ → Bool
all_space [] = true
all_space (c ∷ s) = if is_space c then all_space s else false

-- The text is white space or none, `GETFILE`, white space, `GET`, white space, and a path that starts
-- with a slash, with anything behind it.
pub record IsRequest (text path : List ℕ) : Type 0 where
  pub lead : List ℕ
  pub gap₁ : List ℕ
  pub gap₂ : List ℕ
  pub rest : List ℕ
  pub name : List ℕ
  pub split :
      text ≡ lead ++ (codes "GETFILE" ++ (gap₁ ++ (codes "GET" ++ (gap₂ ++ (path ++ rest)))))
  pub spaces : (all_space lead ≡ true) × (all_space gap₁ ≡ true) × (all_space gap₂ ≡ true)
  pub apart : (gap₁ ≢ []) × (gap₂ ≢ [])
  pub absolute : path ≡ b'/' ∷ name

-- A text cut into leading white space, a word and the rest; behind a word that is shorter than the
-- limit the text ends or goes on with white space.
record Word (n : ℕ) (text word rest : List ℕ) : Type 0 where
  lead : List ℕ
  split : text ≡ lead ++ (word ++ rest)
  spaces : all_space lead ≡ true
  ends : length word < n → (c : ℕ) (s : List ℕ) → rest ≡ c ∷ s → is_space c ≡ true

take_word-split : (n : ℕ) (s : List ℕ) → s ≡ (take_word n s).0 ++ (take_word n s).1
take_word-split zero s = refl
take_word-split (suc n) [] = refl
take_word-split (suc n) (c ∷ s) = ground (arith, take_word-split n s)

take_word-ends :
    (n : ℕ) (s : List ℕ)
    → length (take_word n s).0 < n
    → (c : ℕ) (r : List ℕ) → (take_word n s).1 ≡ c ∷ r
    → is_space c ≡ true
take_word-ends zero s h c r e = absurd (omega arith)
take_word-ends (suc n) [] h c r e = cc
take_word-ends (suc n) (d ∷ s) h c r e = elim (Bool-cases (is_space d)) [
  | inl space ↦ cc (space, rw (take_word, space) at e)
  | inr other ↦
      take_word-ends n s (omega (arith, rw (take_word, other) at h)) c r
        (rw (take_word, other) at e)
]

skip_space-split :
    (s : List ℕ) → (lead : List ℕ) × (s ≡ lead ++ skip_space s) × (all_space lead ≡ true)
skip_space-split [] = ([], refl, refl)
skip_space-split (c ∷ s) = elim (Bool-cases (is_space c)) [
  | inl space ↦
      let (lead, split, spaces) = skip_space-split s in
      (c ∷ lead, rw space (ap (λ t. c ∷ t) split), rw space spaces)
  | inr other ↦ ([], rw other refl, refl)
]

nonempty_word-is :
    (x : List ℕ × List ℕ) (word rest : List ℕ)
    → nonempty_word x ≡ some (word, rest)
    → (x.0 ≡ word) × (x.1 ≡ rest)
nonempty_word-is ([], r) word rest e = cc
nonempty_word-is (c ∷ w, r) word rest e = (cc e, cc e)

scan_word-Word :
    (n : ℕ) (s word rest : List ℕ) → scan_word n s ≡ some (word, rest) → Word n s word rest
unfolding scan_word
scan_word-Word n s word rest e =
    let (lead, split, spaces) = skip_space-split s in
    let (is_word, is_rest) = nonempty_word-is (take_word n (skip_space s)) word rest e in
    record {
      lead = lead;
      split =
          split
          ∙ ap (λ t. lead ++ t)
              (take_word-split n (skip_space s)
                ∙ ap (λ t. t ++ (take_word n (skip_space s)).1) is_word
                ∙ ap (λ t. word ++ t) is_rest);
      spaces = spaces;
      ends = λ short c r at.
          take_word-ends n (skip_space s) (omega (arith, ap length is_word, short)) c r
            (is_rest ∙ at);
    }

same-is : (a b : List ℕ) → same a b ≡ true → a ≡ b
same-is [] [] h = refl
same-is [] (y ∷ b) h = cc
same-is (x ∷ a) [] h = cc
same-is (x ∷ a) (y ∷ b) h = ground (arith, same-is a b)

absolute-is : (c : List ℕ) → is_absolute c ≡ true → (name : List ℕ) × (c ≡ b'/' ∷ name)
absolute-is [] h = absurd (cc h)
absolute-is (d ∷ c) h = (c, ap (λ t. t ∷ c) (==→eq d b'/' h))

check_request-is :
    (a b c path : List ℕ)
    → check_request (a ∷ b ∷ c ∷ []) ≡ some path
    → (a ≡ codes "GETFILE")
      × (b ≡ codes "GET")
      × (c ≡ path)
      × ((name : List ℕ) × (path ≡ b'/' ∷ name))
unfolding check_request
check_request-is a b c path e = elim (Bool-cases (same a (codes "GETFILE"))) [
  | inr other ↦ absurd (some-ne-none path (sym (rw other at e)))
  | inl first ↦ elim (Bool-cases (same b (codes "GET"))) [
    | inr other ↦ absurd (some-ne-none path (sym (rw (first, other) at e)))
    | inl second ↦ elim (Bool-cases (is_absolute c)) [
      | inr other ↦ absurd (some-ne-none path (sym (rw (first, second, other) at e)))
      | inl slash ↦
          let is : c ≡ path = some-injective c path (rw (first, second, slash) at e) in
          (
            same-is a (codes "GETFILE") first,
            same-is b (codes "GET") second,
            is,
            subst (λ p. (name : List ℕ) × (p ≡ b'/' ∷ name)) is (absolute-is c slash),
          )
    ]
  ]
]

-- White space that stands between a short word and the next one is there.
gap-apart :
    {n m : ℕ} {text word rest next rest' : List ℕ} (v : Word n text word rest)
    (w : Word m rest next rest')
    → length word < n
    → (c : ℕ) (s : List ℕ) → next ≡ c ∷ s
    → is_space c ≡ false
    → w.lead ≢ []
gap-apart {rest = rest} {next = next} {rest' = rest'} v w short c s is visible empty =
    let at : rest ≡ c ∷ (s ++ rest') =
      w.split ∙ ap (λ t. t ++ (next ++ rest')) empty ∙ ap (λ t. t ++ rest') is in
    absurd (cc (v.ends short c (s ++ rest') at, visible))

IsRequest-words :
    (text path a b r₁ r₂ rest : List ℕ)
    → Word 15 text a r₁
    → Word 31 r₁ b r₂
    → Word 1023 r₂ path rest
    → a ≡ codes "GETFILE"
    → b ≡ codes "GET"
    → (name : List ℕ) → path ≡ b'/' ∷ name
    → IsRequest text path
IsRequest-words text path a b r₁ r₂ rest u v w getfile get name slash = record {
  lead = u.lead;
  gap₁ = v.lead;
  gap₂ = w.lead;
  rest = rest;
  name = name;
  split =
      u.split
      ∙ ap (λ t. u.lead ++ (t ++ r₁)) getfile
      ∙ ap (λ t. u.lead ++ (codes "GETFILE" ++ t))
          (v.split
            ∙ ap (λ t. v.lead ++ (t ++ r₂)) get
            ∙ ap (λ t. v.lead ++ (codes "GET" ++ t)) w.split);
  spaces = (u.spaces, v.spaces, w.spaces);
  apart = (
    gap-apart u v (omega (arith, ap length getfile)) 71 (codes "ET") get refl,
    gap-apart v w (omega (arith, ap length get)) b'/' name slash refl,
  );
  absolute = slash;
}

scan_third-IsRequest :
    (text path a b r₁ r₂ : List ℕ) (x : Option (List ℕ × List ℕ))
    → scan_word 1023 r₂ ≡ x
    → Word 15 text a r₁
    → Word 31 r₁ b r₂
    → check_request (scan_third a b x) ≡ some path
    → IsRequest text path
unfolding check_request
scan_third-IsRequest text path a b r₁ r₂ none e u v h = absurd (some-ne-none path (sym h))
scan_third-IsRequest text path a b r₁ r₂ (some (c, rest)) e u v h =
    let (getfile, get, is, (name, slash)) = check_request-is a b c path h in
    IsRequest-words text path a b r₁ r₂ rest u v
      (subst (λ p. Word 1023 r₂ p rest) is (scan_word-Word 1023 r₂ c rest e)) getfile get name slash

scan_second-IsRequest :
    (text path a r₁ : List ℕ) (x : Option (List ℕ × List ℕ))
    → scan_word 31 r₁ ≡ x
    → Word 15 text a r₁
    → check_request (scan_second a x) ≡ some path
    → IsRequest text path
unfolding check_request
scan_second-IsRequest text path a r₁ none e u h = absurd (some-ne-none path (sym h))
scan_second-IsRequest text path a r₁ (some (b, r₂)) e u h =
    scan_third-IsRequest text path a b r₁ r₂ (scan_word 1023 r₂) refl u
      (scan_word-Word 31 r₁ b r₂ e) h

scan_first-IsRequest :
    (text path : List ℕ) (x : Option (List ℕ × List ℕ))
    → scan_word 15 text ≡ x
    → check_request (scan_first x) ≡ some path
    → IsRequest text path
unfolding check_request
scan_first-IsRequest text path none e h = absurd (some-ne-none path (sym h))
scan_first-IsRequest text path (some (a, r₁)) e h =
    scan_second-IsRequest text path a r₁ (scan_word 31 r₁) refl (scan_word-Word 15 text a r₁ e) h

-- The header as `sscanf` reads it: up to its end, the room for the NUL, and the first NUL.
abbrev pub header_string : List ℕ → ℕ → List ℕ
header_string buf e = c_string (take (header_len e) buf)

-- A path is read only from a request.
pub parse_request-IsRequest :
    (buf : List ℕ) (e : ℕ) (path : List ℕ)
    → parse_request buf e ≡ some path
    → IsRequest (header_string buf e) path
unfolding parse_request scan_request
parse_request-IsRequest buf e path h =
    scan_first-IsRequest (header_string buf e) path (scan_word 15 (header_string buf e)) refl h
