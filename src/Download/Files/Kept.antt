-- ===== src/Download/Files/Kept.antt =====
-- Which local files a download client keeps.
use c_exercises.Base.{◌≡◌, Bool, true, false, Option, none, some, List, [], ◌∷◌, length, ℤ}
use c_exercises.Net.{Net}
use c_exercises.GetFile.Client.{Request}
use c_exercises.Download.Files.{FileAction, closes, unlinks}

-- The file is not unlinked.
abbrev pub is_kept : List FileAction → Bool
is_kept [] = true
is_kept (closes ∷ actions) = is_kept actions
is_kept (unlinks ∷ actions) = false

module _ (net : Net) where
  open net use {World}

  -- A request comes to its end, and a file that is kept has the length that the header announced.
  abbrev pub Keeps : Option ((ℤ × Option Request) × List FileAction × World) → Type 0
  Keeps none = ⊥
  Keeps (some ((code, none), actions, w)) = is_kept actions ≡ false
  Keeps (some ((code, some r), actions, w)) = is_kept actions ≡ true → length r.output ≡ r.file_len
