-- ===== src/Workload.antt =====
-- projects/gflib/workload.c and the same file of projects/mtgf: the paths that the download clients
-- ask for. The mode is WORKLOAD_SEQ, which nothing changes.
pub mod Rounds
pub mod Reading
mod Tests
use c_exercises.Base.{
  ℕ, zero, suc, true, false, ◌||◌, ◌∷◌, leb, ◌+◌, ◌-◌, ◌%◌, ◌^◌, Option, none, some, List, [], ◌==◌,
  ltb, if◌then◌else◌, length, get_elem?,
}
use c_exercises.Text.{c_string, scan_word}

-- What reading an element of `gWorkloadPathArray` gives; `divides_by_zero` is the `%` by no paths.
pub data Entry : Type 0 where
  path : List ℕ → Entry
  null out_of_bounds divides_by_zero : Entry

-- `gWorkloadPathArray` up to `gUniqueWorkloadPaths`, and the bits of `counter`.
pub record Workload : Type 0 where
  pub paths : List (List ℕ)
  pub counter : ℕ

abbrev pub int_max_count : ℕ
int_max_count = 2 ^ 31

abbrev pub int_mod : ℕ
int_mod = 2 ^ 32

abbrev pub array_entry : Option (List ℕ) → Entry
array_entry none = Entry.null
array_entry (some p) = Entry.path p

pub workload_num_unique_paths : Workload → ℕ
workload_num_unique_paths s = length s.paths

-- `gWorkloadPathArray[entry % gUniqueWorkloadPaths]`. A counter of 2 ^ 31 and more is a negative
-- `entry`, whose remainder is negative or 0.
unfoldable pub entry_at : List (List ℕ) → ℕ → Entry
entry_at paths entry =
    if length paths == 0
    then Entry.divides_by_zero
    else (if ltb entry int_max_count
        then array_entry (get_elem? paths (entry % length paths))
        else if (int_mod - entry) % length paths == 0
        then array_entry (get_elem? paths 0)
        else Entry.out_of_bounds)

unfoldable pub workload_get_path : Workload → Entry × Workload
workload_get_path s = (entry_at s.paths s.counter, record s { counter = (s.counter + 1) % int_mod })

pub workload_destroy : Workload → Workload
workload_destroy s = record s { paths = [] }

-- How reading the list ends. It overruns when a path and its NUL do not fit in `temp_buf`, or when
-- there are more paths than the array has elements.
pub data Loading : Type 0 where
  loaded : List (List ℕ) → Loading
  overruns out_of_fuel : Loading

abbrev pub temp_buf_size : ℕ
temp_buf_size = 256

abbrev pub max_paths : ℕ
max_paths = 100

abbrev pub keep_path : List ℕ → Loading → Loading
keep_path p (Loading.loaded ps) = Loading.loaded (p ∷ ps)
keep_path p Loading.overruns = Loading.overruns
keep_path p Loading.out_of_fuel = Loading.out_of_fuel

-- The loop over `fscanf` of `%s`, where `i` paths stand in the array. The fuel bounds the rounds.
unfoldable pub read_paths : ℕ → List ℕ → ℕ → Loading
read_paths zero text i = Loading.out_of_fuel
read_paths (suc fuel) text i = elim (scan_word (length text) text) [
  | none ↦ Loading.loaded []
  | some (word, rest) ↦ elim (leb temp_buf_size (length word) || leb max_paths i) [
    | true ↦ Loading.overruns
    | false ↦ keep_path (c_string word) (read_paths fuel rest (suc i))
  ]
]

-- What `workload_init` comes to: its result is 0 for EXIT_SUCCESS and 1 for EXIT_FAILURE.
pub data Started : Type 0 where
  returns : ℕ → Workload → Started
  overruns out_of_fuel : Started

abbrev pub with_paths : Workload → Loading → Started
with_paths s (Loading.loaded ps) = Started.returns 0 (record s { paths = ps })
with_paths s Loading.overruns = Started.overruns
with_paths s Loading.out_of_fuel = Started.out_of_fuel

-- `none` stands for a file that does not open. A round takes at least one byte.
unfoldable pub workload_init : Option (List ℕ) → Workload → Started
workload_init none s = Started.returns 1 s
workload_init (some text) s = with_paths s (read_paths (suc (length text)) text 0)
