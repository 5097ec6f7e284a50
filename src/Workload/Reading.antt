-- ===== src/Workload/Reading.antt =====
-- The list of paths of workload.c as a file.
use c_exercises.Base.{
  ℕ, zero, suc, ◌+◌, ◌≤◌, ◌<◌, ◌≡◌, refl, ◌∙◌, ap, Bool, true, false, ◌&&◌, ◌||◌, leb, none, some,
  List, [], ◌∷◌, ◌++◌, arith, length, length-append,
}
use c_exercises.Text.{c_string, lacks, is_space, skip_space, scan_word, take_word, nonempty_word}
use c_exercises.Text.Numbers.{c_string-lacks}
use c_exercises.GetFile.Server.Request.{is_word, take_word-append}
use c_exercises.Workload.{
  Workload, Loading, Started, temp_buf_size, max_paths, keep_path, read_paths, with_paths,
  workload_init,
}

-- A path that fits in the buffer of `workload_init`: without white space and NUL bytes, and not
-- empty.
pub record IsEntry (p : List ℕ) : Type 0 where
  pub word : is_word p ≡ true
  pub no_nul : lacks 0 p ≡ true
  pub nonempty : 0 < length p
  pub short : length p < temp_buf_size

pub data AreEntries : List (List ℕ) → Type 0 where
  nil : AreEntries []
  cons : {p : List ℕ} {ps : List (List ℕ)} → IsEntry p → AreEntries ps → AreEntries (p ∷ ps)

-- One path a line.
unfoldable pub workload_text : List (List ℕ) → List ℕ
workload_text [] = []
workload_text (p ∷ ps) = p ++ 10 ∷ workload_text ps

abbrev all_space : List ℕ → Bool
all_space [] = true
all_space (c ∷ s) = is_space c && all_space s

skip_space-append : (gap s : List ℕ) → all_space gap ≡ true → skip_space (gap ++ s) ≡ skip_space s
skip_space-append [] s h = refl
skip_space-append (c ∷ gap) s h =
    let here : is_space c ≡ true = ground arith in rw here (skip_space-append gap s (ground arith))

scan_word-entry :
    (n : ℕ) (gap p rest : List ℕ)
    → all_space gap ≡ true
    → is_word p ≡ true
    → 0 < length p
    → length p ≤ n
    → scan_word n (gap ++ (p ++ 10 ∷ rest)) ≡ some (p, 10 ∷ rest)
unfolding scan_word
scan_word-entry n gap [] rest h word some_byte fits = absurd (omega arith)
scan_word-entry n gap (c ∷ p) rest h word some_byte fits =
    let here : is_space c ≡ false = ground arith in
    let at_word : skip_space ((c ∷ p) ++ 10 ∷ rest) ≡ (c ∷ p) ++ 10 ∷ rest = rw here refl in
    ap (λ t. nonempty_word (take_word n t))
      (skip_space-append gap ((c ∷ p) ++ 10 ∷ rest) h ∙ at_word)
    ∙ ap nonempty_word (take_word-append n (c ∷ p) 10 rest word refl fits)

take_word-nil : (n : ℕ) → take_word n [] ≡ ([], [])
take_word-nil zero = refl
take_word-nil (suc n) = refl

scan_word-blank : (n : ℕ) (gap : List ℕ) → all_space gap ≡ true → scan_word n (gap ++ []) ≡ none
unfolding scan_word
scan_word-blank n gap h =
    ap (λ t. nonempty_word (take_word n t)) (skip_space-append gap [] h)
    ∙ ap nonempty_word (take_word-nil n)

read_paths-scanned :
    (fuel i : ℕ) (text word rest : List ℕ)
    → scan_word (length text) text ≡ some (word, rest)
    → length word < temp_buf_size
    → i < max_paths
    → read_paths (suc fuel) text i ≡ keep_path (c_string word) (read_paths fuel rest (suc i))
unfolding read_paths
read_paths-scanned fuel i text word rest scanned short room =
    let fits : (leb temp_buf_size (length word) || leb max_paths i) ≡ false = ground arith in
    rw (read_paths, scanned, fits) refl

read_paths-workload_text :
    (fuel i : ℕ) (gap : List ℕ) (ps : List (List ℕ))
    → all_space gap ≡ true
    → AreEntries ps
    → length ps < fuel
    → i + length ps ≤ max_paths
    → read_paths fuel (gap ++ workload_text ps) i ≡ Loading.loaded ps
unfolding read_paths workload_text
read_paths-workload_text zero i gap ps h are enough room = absurd (omega arith)
read_paths-workload_text (suc fuel) i gap [] h AreEntries.nil enough room =
    rw (read_paths, scan_word-blank (length (gap ++ [])) gap h) refl
read_paths-workload_text (suc fuel) i gap (p ∷ ps) h (AreEntries.cons is are) enough room =
    let whole = gap ++ (p ++ 10 ∷ workload_text ps) in
    let behind : length p ≤ length whole = grind (
      arith,
      length-append gap (p ++ 10 ∷ workload_text ps),
      length-append p (10 ∷ workload_text ps),
    ) in
    let scanned =
      scan_word-entry (length whole) gap p (workload_text ps) h is.word is.nonempty behind in
    let later : read_paths fuel (10 ∷ workload_text ps) (suc i) ≡ Loading.loaded ps =
      read_paths-workload_text fuel (suc i) (10 ∷ []) ps refl are (omega arith) (omega arith) in
    read_paths-scanned fuel i whole p (10 ∷ workload_text ps) scanned is.short (omega arith)
    ∙ rw (c_string-lacks p is.no_nul, later) refl

length-workload_text : (ps : List (List ℕ)) → length ps ≤ length (workload_text ps)
unfolding workload_text
length-workload_text [] = omega arith
length-workload_text (p ∷ ps) =
    grind (arith, length-append p (10 ∷ workload_text ps), length-workload_text ps)

-- On a file with one path a line, at most 100 of them and each without white space and NUL bytes,
-- shorter than the buffer and not empty, `workload_init` succeeds and the workload holds these paths
-- in order.
pub workload_init-workload_text :
    (ps : List (List ℕ)) (s : Workload)
    → AreEntries ps
    → length ps ≤ max_paths
    → workload_init (some (workload_text ps)) s ≡ Started.returns 0 (record s { paths = ps })
unfolding workload_init
workload_init-workload_text ps s are room = ap (with_paths s) (
    read_paths-workload_text (suc (length (workload_text ps))) 0 [] ps refl are
      (grind (arith, length-workload_text ps)) (omega arith))
