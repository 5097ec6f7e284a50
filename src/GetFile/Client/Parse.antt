-- ===== src/GetFile/Client/Parse.antt =====
-- The headers that gfserver.c prints, read by gfclient.c.
use c_exercises.Base.{
  ℕ, ◌+◌, ◌<◌, ◌≡◌, refl, ap, inl, inr, Bool, true, false, List, [], ◌∷◌, ◌++◌, arith, ◌==◌,
  append_assoc, sym, if◌then◌else◌, Bool-cases, length, length-append, take-append, lt→leb, pos,
}
use c_exercises.Text.{codes, scan_word, scan_size, show_size, size_mod, lacks, is_digit}
use c_exercises.Text.Numbers.{scan_size-show_size, lacks-show_size, lacks-append, c_string-lacks}
use c_exercises.GetFile.Send.{gf_ok, gf_file_not_found, gf_error, crlf2, header_text, status_text}
use c_exercises.GetFile.Send.Delivery.{length-header_text}
use c_exercises.GetFile.Header.{find_header_tail}
use c_exercises.GetFile.Header.Tail.{find_header_tail-append}
use c_exercises.GetFile.Client.{
  file_not_found, error, invalid, scan_response, Verdict, file, refused, judge, parse_response,
}

-- The verdict that a status code of the server stands for.
abbrev pub meaning : ℕ → ℕ → Verdict
meaning status n =
    if status == gf_ok
    then file n
    else if status == gf_file_not_found
    then refused file_not_found
    else if status == gf_error
    then refused error
    else refused invalid

scan-header_text :
    (status n : ℕ) → n < size_mod → judge (scan_response (header_text status n)) ≡ meaning status n
unfolding scan_response judge header_text scan_word scan_size
scan-header_text status n h = elim (Bool-cases (status == gf_ok)) [
  | inl is_ok ↦ rw (is_ok, scan_size-show_size n 13 (10 ∷ 13 ∷ 10 ∷ []) h)
  | inr not_ok ↦ elim (Bool-cases (status == gf_file_not_found)) [
    | inl missing ↦ rw (not_ok, missing)
    | inr other ↦ elim (Bool-cases (status == gf_error)) [
      | inl err ↦ rw (not_ok, other, err)
      | inr bad ↦ rw (not_ok, other, bad)
    ]
  ]
]

-- A header without its blank line.
abbrev front : ℕ → ℕ → List ℕ
front status n =
    codes "GETFILE " ++ (status_text status ++ (if status == gf_ok then 32 ∷ show_size n else []))

header_text-front : (status n : ℕ) → header_text status n ≡ front status n ++ crlf2
unfolding header_text
header_text-front status n =
    let size = if status == gf_ok then 32 ∷ show_size n else [] in
    ap (λ s. codes "GETFILE " ++ s) (sym (append_assoc (status_text status) size crlf2))

lacks-status_text : (c status : ℕ) → c < 65 → lacks c (status_text status) ≡ true
lacks-status_text c status h = ground arith

lacks-size :
    (c n : ℕ) (is_ok : Bool) → c < 32 → lacks c (if is_ok then 32 ∷ show_size n else []) ≡ true
lacks-size c n true h =
    let space : (32 == c) ≡ false = ground arith in
    let other : is_digit c ≡ false = ground arith in rw space (lacks-show_size c n other)
lacks-size c n false h = refl

lacks-front : (c status n : ℕ) → c < 32 → lacks c (front status n) ≡ true
lacks-front c status n h =
    let size = if status == gf_ok then 32 ∷ show_size n else [] in
    lacks-append c (codes "GETFILE ") (status_text status ++ size) (ground arith) (
      lacks-append c (status_text status) size (lacks-status_text c status (omega arith))
        (lacks-size c n (status == gf_ok) h))

-- A header that the server prints for a length below 2 ^ 64 is found whole by the client, whatever follows it, and read as the
-- status and the length that the server gave; every code that is not one of the four is read as
-- GF_INVALID.
pub parse_response-header_text :
    (status n : ℕ) (rest : List ℕ)
    → n < size_mod
    → let header = header_text status n in
      (find_header_tail (header ++ rest) ≡ pos (length header))
      × (parse_response (header ++ rest) (length header) ≡ meaning status n)
unfolding parse_response
parse_response-header_text status n rest h =
    let text = header_text status n in
    let whole : text ≡ front status n ++ crlf2 = header_text-front status n in
    let size : length text ≡ length (front status n) + 4 =
      rw whole (length-append (front status n) crlf2) in
    let tail : find_header_tail (text ++ rest) ≡ pos (length text) =
      rw (size, whole, append_assoc)
        (find_header_tail-append (front status n) rest (lacks-front 13 status n (omega arith))) in
    let clean : lacks 0 text ≡ true =
      rw whole
        (lacks-append 0 (front status n) crlf2 (lacks-front 0 status n (omega arith)) refl) in
    let short = lt→leb 1024 (length text) (omega (arith, length-header_text status n h)) in
    (
      tail,
      rw (short, take-append text rest, c_string-lacks text clean) (scan-header_text status n h),
    )
