-- ===== src/Download/Tests.antt =====
-- Options, names and folders of the download clients, and a request without an answer.
use c_exercises.Base.{ℕ, ◌≡◌, refl, true, some, List, [], ◌∷◌, pos}
use c_exercises.Text.{codes, show_size, scan_word}
use c_exercises.Workload.{read_paths}
use c_exercises.GetFile.Client.Perform.{Dial}
use c_exercises.Sockets.{exits}
use c_exercises.Download.{Options, download_start}
use c_exercises.Download.Files.{made, Made, make_folders, gflib_local_path}
use c_exercises.Download.Files.Folders.{asked, folders_of, make_folders-asked}

abbrev all_made : List ℕ → Made
all_made folder = made

make_folders-asked_example :
    make_folders all_made (codes "/a/b/c") ≡ some (asked all_made (folders_of (codes "/a/b/c")))
make_folders-asked_example = make_folders-asked all_made (codes "/a/b/c")

two_folders : make_folders all_made (codes "/a/b/c") ≡ some (true, codes "/a" ∷ codes "/a/b" ∷ [])
unfolding make_folders
two_folders = refl

abbrev same_paths : List (List ℕ)
same_paths = codes "/a_b" ∷ codes "/c" ∷ codes "/a_b" ∷ []

local_name : gflib_local_path (codes "/a") 12 ≡ (codes "a_000012", 13)
unfolding gflib_local_path show_size
local_name = refl

abbrev options : Options
options = record {
  server = codes "localhost";
  workload_path = codes "workload.txt";
  nrequests = pos 1;
  nthreads = pos 1;
  port = 56726;
}

abbrev dial : Dial
dial = record { resolves = true; addresses = (pos 3, true) ∷ [] }

too_many_threads :
    download_start ((b't', codes "1025") ∷ []) (λ name. some (codes "/a\n")) ≡ some (exits 1 [])
unfolding download_start read_paths scan_word
too_many_threads = refl
