-- ===== src/Proxy/Tests.antt =====
-- A response and a file of three bytes.
use mathlib.Core.Option.{some-injective}
use c_exercises.Base.{
  ℕ, zero, suc, ◌≤◌, ◌≡◌, refl, sym, ap, subst, Bool, true, Option, some, List, [], ◌∷◌, arith,
  ◌==◌, length, take, drop, append-nil,
}
use c_exercises.Text.{codes}
use c_exercises.Gfs.Log.{logged, fresh, log_header}
use c_exercises.Shm.Channel.Invariant.{ReadsFile}
use c_exercises.Proxy.{MemoryBuf, Fed, Curl, Opened, handle_with_file, handle_with_curl}
use c_exercises.Proxy.Copying.{Copies, handle_with_file-Copies}
use c_exercises.Proxy.Fetching.{Serves, handle_with_curl-Serves}

abbrev hey : List ℕ
hey = codes "hey"

-- It hands the response over in one piece, and succeeds if the callback takes it.
abbrev one_piece : (Bool → List ℕ → MemoryBuf → ℕ × MemoryBuf) → MemoryBuf → Bool × MemoryBuf
one_piece cb m = ((cb true hey m).0 == 3, (cb true hey m).1)

one_piece-whole :
    (cb : Bool → List ℕ → MemoryBuf → ℕ × MemoryBuf) (m : MemoryBuf)
    → (one_piece cb m).0 ≡ true
    → Fed cb hey m (one_piece cb m).1
one_piece-whole cb m h = Fed.cons true hey (sym (append-nil hey)) (ground arith) Fed.nil

abbrev curl : Curl
curl = record {
  inits = true;
  body = hey;
  response_code = 200;
  perform = one_piece;
  whole = one_piece-whole;
}

handle_with_curl-Serves_example :
    Serves logged 1 hey fresh (handle_with_curl logged true curl 1 fresh)
handle_with_curl-Serves_example = handle_with_curl-Serves logged curl 1 fresh refl refl refl refl

abbrev at_once : ℕ → Option (List ℕ)
at_once off = some (drop off hey)

drop-empty : (off : ℕ) (xs : List ℕ) → drop off xs ≡ [] → length xs ≤ off
drop-empty zero [] h = omega arith
drop-empty zero (x ∷ xs) h = cc
drop-empty (suc off) [] h = omega arith
drop-empty (suc off) (x ∷ xs) h = omega (arith, drop-empty off xs h)

take-all : (xs : List ℕ) → xs ≡ take (length xs) xs
take-all [] = refl
take-all (x ∷ xs) = ap (λ t. x ∷ t) (take-all xs)

at_once-ReadsFile : ReadsFile hey at_once
at_once-ReadsFile = record {
  reads = λ off d e.
      subst (λ t. t ≡ take (length t) (drop off hey)) (some-injective (drop off hey) d e)
        (take-all (drop off hey));
  ends = λ off e. drop-empty off hey (some-injective (drop off hey) [] e);
}

handle_with_file-Copies_example :
    Copies logged 1 hey 3
      (log_header 1 200 3 fresh).1
      (handle_with_file logged Opened.opened (some 3) at_once 1 fresh)
handle_with_file-Copies_example =
    handle_with_file-Copies logged 1 hey 3 at_once at_once-ReadsFile fresh
