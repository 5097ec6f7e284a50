-- ===== src/Workload/Tests.antt =====
-- A list of two paths, and the fourth round over them.
use c_exercises.Base.{ℕ, ◌≡◌, List, [], ◌∷◌, arith, refl, some, replicate}
use c_exercises.Text.{codes, scan_word}
use c_exercises.Workload.{Started, workload_init, read_paths}
use c_exercises.Workload.Reading.{workload_text, AreEntries, IsEntry, workload_init-workload_text}

abbrev two_paths : List (List ℕ)
two_paths = codes "/a" ∷ codes "/b" ∷ []

a-IsEntry : IsEntry (codes "/a")
a-IsEntry = record { word = refl; no_nul = refl; nonempty = omega arith; short = omega arith }

b-IsEntry : IsEntry (codes "/b")
b-IsEntry = record { word = refl; no_nul = refl; nonempty = omega arith; short = omega arith }

workload_init-workload_text_example :
    workload_init (some (workload_text two_paths)) (record { paths = []; counter = 0 })
    ≡ Started.returns 0 (record { paths = two_paths; counter = 0 })
workload_init-workload_text_example =
    workload_init-workload_text two_paths (record { paths = []; counter = 0 })
      (AreEntries.cons a-IsEntry (AreEntries.cons b-IsEntry AreEntries.nil)) (omega arith)

-- A path of 256 bytes does not fit in the buffer with its NUL.
long_path_overruns :
    workload_init (some (replicate 256 65)) (record { paths = []; counter = 0 }) ≡ Started.overruns
unfolding workload_init read_paths scan_word
long_path_overruns = refl
