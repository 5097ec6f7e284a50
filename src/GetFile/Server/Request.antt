-- ===== src/GetFile/Server/Request.antt =====
-- The requests that gfclient.c prints, read by gfserver.c.
use c_exercises.Base.{
  ℕ, zero, suc, ◌≤◌, ◌<◌, ◌≡◌, refl, sym, ◌∙◌, ap, subst, Bool, true, false, ◌&&◌, not, some, List,
  [], ◌∷◌, ◌++◌, arith, ◌==◌, leb, length, length-append, take-append, append_assoc, lt→leb, pos,
}
use c_exercises.Text.{codes, scan_word, take_word, is_space, lacks}
use c_exercises.Text.Numbers.{lacks-append, c_string-lacks}
use c_exercises.GetFile.Send.{crlf2}
use c_exercises.GetFile.Header.{find_header_tail}
use c_exercises.GetFile.Header.Tail.{find_header_tail-append}
use c_exercises.GetFile.Client.Perform.{request_text}
use c_exercises.GetFile.Server.{scan_request, check_request, parse_request}

-- No byte of a word is white space.
abbrev pub is_word : List ℕ → Bool
is_word [] = true
is_word (c ∷ s) = not (is_space c) && is_word s

pub take_word-append :
    (n : ℕ) (p : List ℕ) (c : ℕ) (rest : List ℕ)
    → is_word p ≡ true
    → is_space c ≡ true
    → length p ≤ n
    → take_word n (p ++ c ∷ rest) ≡ (p, c ∷ rest)
take_word-append zero [] c rest word space h = refl
take_word-append (suc n) [] c rest word space h = rw space
take_word-append zero (d ∷ p) c rest word space h = absurd (omega arith)
take_word-append (suc n) (d ∷ p) c rest word space h =
    let here : is_space d ≡ false = ground arith in
    rw (take_word-append n p c rest (ground arith) space (omega arith), here)

space-ne : (c d : ℕ) → is_space c ≡ true → is_space d ≡ false → (d == c) ≡ false
space-ne c d space other = ground arith

lacks-word : (c : ℕ) (p : List ℕ) → is_space c ≡ true → is_word p ≡ true → lacks c p ≡ true
lacks-word c [] space word = refl
lacks-word c (d ∷ p) space word =
    let here : (d == c) ≡ false = space-ne c d space (ground arith) in
    rw here (lacks-word c p space (ground arith))

-- A path that the client can ask for: absolute, without white space or NUL bytes, and short enough
-- for its buffer.
pub record IsPath (path : List ℕ) : Type 0 where
  pub rest : List ℕ
  pub absolute : path ≡ b'/' ∷ rest
  pub word : is_word path ≡ true
  pub clean : lacks 0 path ≡ true
  pub short : length (request_text path) < 1024

scan_word-path :
    (rest : List ℕ)
    → is_word rest ≡ true
    → length rest ≤ 1022
    → scan_word 1023 (32 ∷ b'/' ∷ rest ++ crlf2) ≡ some (b'/' ∷ rest, crlf2)
unfolding scan_word
scan_word-path rest word h = rw (take_word-append 1022 rest 13 (10 ∷ 13 ∷ 10 ∷ []) word refl h)

scan-request_text :
    (rest : List ℕ)
    → is_word rest ≡ true
    → length rest ≤ 1022
    → check_request (scan_request (request_text (b'/' ∷ rest))) ≡ some (b'/' ∷ rest)
unfolding scan_request check_request
scan-request_text rest word h =
    let first : scan_word 15 (request_text (b'/' ∷ rest))
        ≡ some (codes "GETFILE", codes " GET " ++ (b'/' ∷ rest ++ crlf2)) =
      unfold scan_word in refl in
    let second : scan_word 31 (codes " GET " ++ (b'/' ∷ rest ++ crlf2))
        ≡ some (codes "GET", 32 ∷ (b'/' ∷ rest ++ crlf2)) =
      unfold scan_word in refl in
    rw (first, second, scan_word-path rest word h)

-- A clean header is scanned as it is, whatever follows it.
parse_request-clean :
    (text rest : List ℕ)
    → leb 1024 (length text) ≡ false
    → lacks 0 text ≡ true
    → parse_request (text ++ rest) (length text) ≡ check_request (scan_request text)
unfolding parse_request
parse_request-clean text rest room clean =
    rw (room, take-append text rest, c_string-lacks text clean)

-- The request line without its blank line.
abbrev front : List ℕ → List ℕ
front path = codes "GETFILE GET " ++ path

find-request_text :
    (path rest : List ℕ)
    → is_word path ≡ true
    → find_header_tail (request_text path ++ rest) ≡ pos (length (request_text path))
find-request_text path rest word =
    let same : request_text path ++ rest ≡ front path ++ (crlf2 ++ rest) =
      ap (λ t. codes "GETFILE GET " ++ t) (append_assoc path crlf2 rest) in
    let no_cr : lacks 13 (front path) ≡ true =
      lacks-append 13 (codes "GETFILE GET ") path refl (lacks-word 13 path refl word) in
    ap find_header_tail same
    ∙ find_header_tail-append (front path) rest no_cr
    ∙ ap pos (omega (arith, length-append path crlf2))

-- The server finds the end of a request that the client prints, whatever follows it, and reads the
-- path that was asked for.
pub parse_request-request_text :
    (path rest : List ℕ)
    → IsPath path
    → (find_header_tail (request_text path ++ rest) ≡ pos (length (request_text path)))
      × (parse_request (request_text path ++ rest) (length (request_text path)) ≡ some path)
parse_request-request_text path rest is =
    let clean : lacks 0 (request_text path) ≡ true =
      lacks-append 0 (codes "GETFILE GET ") (path ++ crlf2) refl
        (lacks-append 0 path crlf2 is.clean refl) in
    let room = lt→leb 1024 (length (request_text path)) is.short in
    let word : is_word (b'/' ∷ is.rest) ≡ true = rw is.absolute at is.word in
    let size : length path ≡ suc (length is.rest) = ap length is.absolute in
    let short : length is.rest ≤ 1022 = omega (arith, is.short, length-append path crlf2, size) in
    let scan : check_request (scan_request (request_text path)) ≡ some path =
      subst (λ p. check_request (scan_request (request_text p)) ≡ some p) (sym is.absolute)
        (scan-request_text is.rest (ground arith) short) in
    (
      find-request_text path rest is.word,
      parse_request-clean (request_text path) rest room clean ∙ scan,
    )
