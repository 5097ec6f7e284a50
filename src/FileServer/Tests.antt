-- ===== src/FileServer/Tests.antt =====
-- A server whose sends take two bytes at a time, and a file of three bytes.
use mathlib.Core.Option.{some-injective}
use c_exercises.Base.{
  ℕ, zero, suc, ◌≤◌, ◌≡◌, refl, sym, subst, Option, some, List, [], ◌∷◌, arith, length, take, drop,
  take-length-take, pos, minus_one,
}
use c_exercises.Text.{codes}
use c_exercises.Gfs.{header, bytes}
use c_exercises.Gfs.Log.{logged, fresh}
use c_exercises.Shm.Channel.Invariant.{ReadsFile}
use c_exercises.FileServer.{Job, Files, answer_job}
use c_exercises.FileServer.Answers.{Replies, answer_job-Replies}

abbrev hey : List ℕ
hey = codes "hey"

abbrev by_two : ℕ → Option (List ℕ)
by_two off = some (take 2 (drop off hey))

take_two-nil : (off : ℕ) (xs : List ℕ) → take 2 (drop off xs) ≡ [] → length xs ≤ off
take_two-nil zero [] h = omega arith
take_two-nil zero (x ∷ xs) h = cc
take_two-nil (suc off) [] h = omega arith
take_two-nil (suc off) (x ∷ xs) h = omega (arith, take_two-nil off xs h)

by_two-ReadsFile : ReadsFile hey by_two
by_two-ReadsFile = record {
  reads = λ off d e.
      subst (λ t. t ≡ take (length t) (drop off hey)) (some-injective (take 2 (drop off hey)) d e)
        (sym (take-length-take 2 (drop off hey)));
  ends = λ off e. take_two-nil off hey (some-injective (take 2 (drop off hey)) [] e);
}

-- Only the empty path is missing.
abbrev files : Files
files = record {
  content_get = λ path. elim path [ [] ↦ minus_one | b ∷ bs ↦ pos 5 ];
  dup = λ fd. pos 6;
  fstat = λ fd. some 3;
  pread = λ fd. by_two;
}

abbrev job : Job
job = record { path = codes "/hey"; ctx = 1 }

abbrev lost : Job
lost = record { path = []; ctx = 2 }

answer_job-Replies_example :
    Replies logged 1 (header 200 3 ∷ bytes hey) fresh (answer_job logged 4 files job fresh)
answer_job-Replies_example =
    answer_job-Replies logged files job hey 3 fresh refl refl refl by_two-ReadsFile
