-- ===== src/Download/Files.antt =====
-- The files of the download clients, projects/mtgf/gfclient_download.c and
-- projects/gflib/gfclient_download.c: their names, their folders, and a request that fills one.
pub mod Names
pub mod Folders
pub mod Kept
use c_exercises.Base.{
  ℕ, zero, suc, ◌+◌, ◌-◌, Bool, true, false, not, ◌||◌, Option, none, some, List, [], ◌∷◌, ◌++◌,
  ◌==◌, ltb, leb, if◌then◌else◌, length, take, drop, replicate, ℤ, pos, negsuc, is_negative,
}
use c_exercises.Text.{codes, show_size}
use c_exercises.Text.Integers.{atoi, to_ushort}
use c_exercises.Net.{Net}
use c_exercises.GetFile.Client.{
  Status, Request, gfc_create, gfc_set_path, gfc_set_port, gfc_set_server, gfc_set_writefunc,
  gfc_get_status,
}
use c_exercises.GetFile.Client.Perform.{Dial, gfc_perform}
use c_exercises.Sockets.{
  Start, exits, goes, ◌>>=◌, ◌>>◌, require, Choice, sets, quits, read_options,
}
use c_exercises.Workload.{
  Workload, Started, returns, overruns, out_of_fuel, Entry, path, null, out_of_bounds,
  divides_by_zero, workload_init, workload_get_path,
}
use c_exercises.Download.{Options}

-- `%06d` of a number that is not negative.
abbrev pub padded : ℕ → List ℕ
padded n = replicate (6 - length (show_size n)) 48 ++ show_size n

-- `localPath` of projects/gflib, on the static counter that it leaves one higher, and whose buffer of 256
-- bytes `snprintf` fills at most.
unfoldable pub gflib_local_path : List ℕ → ℕ → List ℕ × ℕ
gflib_local_path req_path counter = (take 255 (drop 1 req_path ++ 95 ∷ padded counter), counter + 1)

-- The names that the calls in the loop of `main` give to the paths of a run, one after the other.
unfoldable pub gflib_local_paths : List (List ℕ) → ℕ → List (List ℕ)
unfolding gflib_local_path
gflib_local_paths [] counter = []
gflib_local_paths (req_path ∷ paths) counter =
    let (name, counter') = gflib_local_path req_path counter in
    name ∷ gflib_local_paths paths counter'

-- `localPath` of projects/mtgf; `none` if `sprintf` writes behind the buffer of 512 bytes.
unfoldable pub mtgf_local_path : List ℕ → ℕ → Option (List ℕ)
mtgf_local_path req_path counter =
    let name = drop 1 req_path ++ 45 ∷ padded counter in
    if ltb (length name) 512 then some name else none

-- What `mkdir` answers: success, EEXIST, or another error.
pub data Made : Type 0 where
  made exists failed : Made

abbrev pub strchr : ℕ → List ℕ → Option ℕ
strchr c [] = none
strchr c (d ∷ s) =
    if d == c then some 0 else (elim (strchr c s) [ none ↦ none | some i ↦ some (suc i) ])

abbrev pub add_folder : List ℕ → Option (Bool × List (List ℕ)) → Option (Bool × List (List ℕ))
add_folder folder none = none
add_folder folder (some (ok, folders)) = some (ok, folder ∷ folders)

-- The loop of `openFile`: whether it comes to its end, and the folders it asks `mkdir` for, in order.
-- `prev` is an index into the path. The fuel bounds the rounds.
unfoldable pub folder_loop : (List ℕ → Made) → ℕ → List ℕ → ℕ → Option (Bool × List (List ℕ))
folder_loop mkdir zero file_path prev = none
folder_loop mkdir (suc fuel) file_path prev = elim (strchr b'/' (drop (suc prev) file_path)) [
  | none ↦ some (true, [])
  | some d ↦
      let folder = take (suc prev + d) file_path in
      elim (mkdir folder) [
        | failed ↦ some (false, folder ∷ [])
        | made ↦ add_folder folder (folder_loop mkdir fuel file_path (suc prev + d))
        | exists ↦ add_folder folder (folder_loop mkdir fuel file_path (suc prev + d))
      ]
]

-- `openFile` up to its `fopen`.
unfoldable pub make_folders : (List ℕ → Made) → List ℕ → Option (Bool × List (List ℕ))
unfolding folder_loop
make_folders mkdir file_path = folder_loop mkdir (suc (length file_path)) file_path 0

-- What becomes of the local file.
pub data FileAction : Type 0 where
  closes unlinks : FileAction

-- Behind `gfc_perform`.
unfoldable pub settle_file : ℤ → Status → List FileAction
settle_file returncode status =
    (if is_negative returncode then closes ∷ unlinks ∷ [] else closes ∷ [])
    ++ (elim status [ Status.ok ↦ [] | _ ↦ unlinks ∷ [] ])

module _ (net : Net) where
  open net use {World}

  -- The request of a worker, from `gfc_create` to the last `unlink`, with the result of `gfc_perform`.
  unfoldable pub fetch :
      Options → List ℕ → Dial → World → Option ((ℤ × Option Request) × List FileAction × World)
  unfolding settle_file gfc_perform
  fetch o req_path dial w =
      let r0 = gfc_set_path (gfc_create true) (some req_path) in
      let r1 = gfc_set_server (gfc_set_port r0 o.port) (some o.server) in
      let r2 = gfc_set_writefunc r1 true in
      elim (gfc_perform net r2 dial w) [
        | none ↦ none
        | some ((code, r), w') ↦ some ((code, r), settle_file code (gfc_get_status r), w')
      ]
