-- ===== src/Download/Files/Folders.antt =====
-- Which folders `openFile` of the download clients makes.
use mathlib.Core.Option.{some-injective}
use c_exercises.Base.{
  ℕ, zero, suc, ◌+◌, ◌-◌, ◌<◌, ◌≡◌, refl, sym, ◌∙◌, ap, Bool, true, false, Bool-cases, inl, inr,
  Option, none, some, List, [], ◌∷◌, ◌++◌, arith, ◌==◌, if◌then◌else◌, length, take, drop,
  length-drop, take-append-take-drop, drop-drop, append_assoc, append-nil,
}
use c_exercises.Download.Files.{
  Made, made, exists, failed, strchr, add_folder, folder_loop, make_folders,
}

-- What stands before each slash of `rest`, behind `seen`.
abbrev folders_behind : List ℕ → List ℕ → List (List ℕ)
folders_behind seen [] = []
folders_behind seen (c ∷ rest) =
    if c == b'/'
    then seen ∷ folders_behind (seen ++ c ∷ []) rest
    else folders_behind (seen ++ c ∷ []) rest

-- The folders on the way to a file: what stands before each slash that is not the first byte.
abbrev pub folders_of : List ℕ → List (List ℕ)
folders_of [] = []
folders_of (c ∷ rest) = folders_behind (c ∷ []) rest

abbrev behind_slash : List ℕ → List ℕ → Option ℕ → List (List ℕ)
behind_slash seen rest none = []
behind_slash seen rest (some d) =
    (seen ++ take d rest) ∷ folders_behind (seen ++ take (suc d) rest) (drop (suc d) rest)

behind_slash-next :
    (seen : List ℕ) (c : ℕ) (rest : List ℕ) (o : Option ℕ)
    → behind_slash (seen ++ c ∷ []) rest o
      ≡ behind_slash seen (c ∷ rest) (elim o [ none ↦ none | some i ↦ some (suc i) ])
behind_slash-next seen c rest none = refl
behind_slash-next seen c rest (some d) =
    rw (append_assoc seen (c ∷ []) (take d rest), append_assoc seen (c ∷ []) (take (suc d) rest))
      refl

-- `strchr` finds the next folder.
folders_behind-strchr :
    (seen rest : List ℕ) → folders_behind seen rest ≡ behind_slash seen rest (strchr b'/' rest)
folders_behind-strchr seen [] = refl
folders_behind-strchr seen (c ∷ rest) = elim (Bool-cases (c == b'/')) [
  | inl slash ↦
      rw slash (ap (λ t. t ∷ folders_behind (seen ++ c ∷ []) rest) (sym (append-nil seen)))
  | inr other ↦ rw other (
      folders_behind-strchr (seen ++ c ∷ []) rest
      ∙ behind_slash-next seen c rest (strchr b'/' rest))
]

next-lt :
    (n d : ℕ) (o : Option ℕ)
    → ((i : ℕ) → o ≡ some i → i < n)
    → (elim o [ none ↦ none | some i ↦ some (suc i) ]) ≡ some d
    → d < suc n
next-lt n d none below h = absurd (cc h)
next-lt n d (some i) below h =
    let at_next : suc i ≡ d = some-injective (suc i) d h in omega (arith, below i refl)

strchr-lt : (c : ℕ) (s : List ℕ) (d : ℕ) → strchr c s ≡ some d → d < length s
strchr-lt c [] d h = absurd (cc h)
strchr-lt c (x ∷ s) d h = elim (Bool-cases (x == c)) [
  | inl here ↦ let at_start : 0 ≡ d = some-injective 0 d (rw here at h) in omega arith
  | inr other ↦ next-lt (length s) d (strchr c s) (strchr-lt c s) (rw other at h)
]

-- The folders that `mkdir` is asked for until it fails.
abbrev pub asked : (List ℕ → Made) → List (List ℕ) → Bool × List (List ℕ)
asked mkdir [] = (true, [])
asked mkdir (f ∷ fs) =
    let later = asked mkdir fs in
    elim (mkdir f) [
      | failed ↦ (false, f ∷ [])
      | made ↦ (later.0, f ∷ later.1)
      | exists ↦ (later.0, f ∷ later.1)
    ]

answers :
    (m : Made) (f : List ℕ) (run : Option (Bool × List (List ℕ))) (later : Bool × List (List ℕ))
    → run ≡ some later
    → (elim m [
      | failed ↦ some (false, f ∷ [])
      | made ↦ add_folder f run
      | exists ↦ add_folder f run
    ])
      ≡ some (elim m [
        | failed ↦ (false, f ∷ [])
        | made ↦ (later.0, f ∷ later.1)
        | exists ↦ (later.0, f ∷ later.1)
      ])
answers failed f run later h = refl
answers made f run later h = rw h refl
answers exists f run later h = rw h refl

-- The folder before a slash, and those behind it, by indices into the path.
slash-at :
    (p : List ℕ) (prev d : ℕ)
    → behind_slash (take (suc prev) p) (drop (suc prev) p) (some d)
      ≡ take (suc prev + d) p
        ∷ folders_behind (take (suc (suc prev + d)) p) (drop (suc (suc prev + d)) p)
slash-at p prev d =
    let next : suc prev + suc d ≡ suc (suc prev + d) = omega arith in
    let seen = take-append-take-drop (suc prev) (suc d) p ∙ ap (λ n. take n p) next in
    let behind = drop-drop (suc prev) (suc d) p ∙ ap (λ n. drop n p) next in
    ap
      (λ t.
        t
        ∷ folders_behind (take (suc prev) p ++ take (suc d) (drop (suc prev) p))
            (drop (suc d) (drop (suc prev) p)))
      (take-append-take-drop (suc prev) d p)
    ∙ ap (λ t. take (suc prev + d) p ∷ folders_behind t (drop (suc d) (drop (suc prev) p))) seen
    ∙ ap (λ t. take (suc prev + d) p ∷ folders_behind (take (suc (suc prev + d)) p) t) behind

module _ (mkdir : List ℕ → Made) (p : List ℕ) where
  -- From where on the loop asks for the folders behind the first bytes of the path.
  abbrev Continues : ℕ → Type 0
  Continues fuel =
      (prev : ℕ)
      → length p - prev < fuel
      → folder_loop mkdir fuel p prev
        ≡ some (asked mkdir (folders_behind (take (suc prev) p) (drop (suc prev) p)))

  folder_loop-round :
      (fuel prev : ℕ) (o : Option ℕ)
      → Continues fuel
      → length p - prev < suc fuel
      → strchr b'/' (drop (suc prev) p) ≡ o
      → folder_loop mkdir (suc fuel) p prev
        ≡ some (asked mkdir (behind_slash (take (suc prev) p) (drop (suc prev) p) o))
  unfolding folder_loop
  folder_loop-round fuel prev none rest h e = rw (folder_loop, e) refl
  folder_loop-round fuel prev (some d) rest h e =
      let cur = suc prev + d in
      let inside = strchr-lt b'/' (drop (suc prev) p) d e in
      rw (folder_loop, e)
        (answers (mkdir (take cur p)) (take cur p) (folder_loop mkdir fuel p cur)
          (asked mkdir (folders_behind (take (suc cur) p) (drop (suc cur) p)))
          (rest cur (omega (arith, inside, length-drop (suc prev) p, h))))
      ∙ ap (λ fs. some (asked mkdir fs)) (sym (slash-at p prev d))

  folder_loop-asked : (fuel : ℕ) → Continues fuel
  folder_loop-asked zero prev h = absurd (omega arith)
  folder_loop-asked (suc fuel) prev h =
      folder_loop-round fuel prev (strchr b'/' (drop (suc prev) p)) (folder_loop-asked fuel) h refl
      ∙ ap (λ fs. some (asked mkdir fs))
          (sym (folders_behind-strchr (take (suc prev) p) (drop (suc prev) p)))

whole_path : (p : List ℕ) → folders_behind (take 1 p) (drop 1 p) ≡ folders_of p
whole_path [] = refl
whole_path (c ∷ rest) = refl

-- The loop of `openFile` comes to its end. It asks `mkdir` for every folder on the way to the file, what
-- stands before each slash but a leading one, from the outermost on, and stops at the first that fails.
pub make_folders-asked :
    (mkdir : List ℕ → Made) (p : List ℕ) → make_folders mkdir p ≡ some (asked mkdir (folders_of p))
unfolding make_folders
make_folders-asked mkdir p =
    folder_loop-asked mkdir p (suc (length p)) 0 (omega arith)
    ∙ ap (λ fs. some (asked mkdir fs)) (whole_path p)
