-- ===== src/Download/Files/Names.antt =====
-- The names of the local files.
use c_exercises.Base.{
  ℕ, ◌+◌, ◌-◌, ◌≤◌, ◌<◌, ◌≡◌, refl, ◌≢◌, none, some, List, [], ◌∷◌, ◌++◌, arith, length, drop,
  replicate, length-append, length-replicate, length-drop, lt→ltb, le→ltb,
}
use c_exercises.Text.{show_size}
use c_exercises.Text.Numbers.{length-show_size_six}
use c_exercises.Download.Files.{padded, mtgf_local_path}

length-padded : (n : ℕ) → n < 1000000 → length (padded n) ≡ 6
length-padded n h = omega (
  arith,
  length-append (replicate (6 - length (show_size n)) 48) (show_size n),
  length-replicate {A = ℕ} (6 - length (show_size n)) 48,
  length-show_size_six n h,
)

length-drop_one : (p : List ℕ) → length (drop 1 p) ≡ length p - 1
length-drop_one p = length-drop 1 p

-- Every path has at most 249 bytes.
abbrev pub AreShort : List (List ℕ) → Type 0
AreShort [] = Unit
AreShort (p ∷ ps) = (length p ≤ 249) × AreShort ps

-- The name is none of the names.
abbrev pub IsNew : List ℕ → List (List ℕ) → Type 0
IsNew name [] = Unit
IsNew name (n ∷ ns) = (name ≢ n) × IsNew name ns

-- No name stands twice in the list.
abbrev pub AreDistinct : List (List ℕ) → Type 0
AreDistinct [] = Unit
AreDistinct (n ∷ ns) = IsNew n ns × AreDistinct ns

-- For fewer than a million requests, the client in projects/mtgf writes a name of its whole path and
-- counter if the path has at most 505 bytes, and behind its buffer if it has more.
pub mtgf_local_path-fits :
    (p : List ℕ) (c : ℕ)
    → c < 1000000
    → 0 < length p
    → (length p ≤ 505 → mtgf_local_path p c ≡ some (drop 1 p ++ 45 ∷ padded c))
      × (505 < length p → mtgf_local_path p c ≡ none)
unfolding mtgf_local_path
mtgf_local_path-fits p c small some_byte =
    let size : length (drop 1 p ++ 45 ∷ padded c) ≡ length p + 6 =
      omega (
        arith,
        length-append (drop 1 p) (45 ∷ padded c),
        length-drop_one p,
        length-padded c small,
      ) in
    (
      λ fits. rw (lt→ltb (length (drop 1 p ++ 45 ∷ padded c)) 512 (omega (arith, size, fits))) refl,
      λ long. rw (le→ltb (length (drop 1 p ++ 45 ∷ padded c)) 512 (omega (arith, size, long))) refl,
    )
