-- ===== src/Cache/Load.antt =====
-- `simplecache_init` reads back a list of keys and paths.
use c_exercises.Base.{
  ℕ, zero, suc, ◌+◌, ◌-◌, ◌≤◌, ◌<◌, ◌≡◌, refl, sym, ◌∙◌, ap, true, false, none, some, List, [], ◌∷◌,
  ◌++◌, append-nil, append_assoc, arith, ◌==◌, length, length-append, take-append,
}
use c_exercises.Text.{c_string, lacks}
use c_exercises.Text.Numbers.{c_string-lacks, lacks-append}
use c_exercises.Cache.{
  Item, fgets, strsep, fields, Open, Loaded, keep_item, use_line, load_loop, sorted_items, qsort,
  load_table,
}

lacks-head : (c d : ℕ) (s : List ℕ) → lacks c (d ∷ s) ≡ true → (d == c) ≡ false
lacks-head c d s h = ground arith

lacks-tail : (c d : ℕ) (s : List ℕ) → lacks c (d ∷ s) ≡ true → lacks c s ≡ true
lacks-tail c d s h = ground arith

fgets-line :
    (n : ℕ) (w rest : List ℕ)
    → lacks 10 w ≡ true
    → length w < n
    → fgets n (w ++ 10 ∷ rest) ≡ (w ++ 10 ∷ [], rest)
unfolding fgets
fgets-line zero w rest h less = absurd (omega arith)
fgets-line (suc n) [] rest h less = refl
fgets-line (suc n) (b ∷ w) rest h less =
    rw (lacks-head 10 b w h, fgets-line n w rest (lacks-tail 10 b w h) (omega arith)) refl

strsep-key :
    (w rest : List ℕ)
    → lacks 32 w ≡ true
    → lacks 9 w ≡ true
    → strsep (w ++ 32 ∷ rest) ≡ (w, some rest)
unfolding strsep
strsep-key [] rest h k = refl
strsep-key (b ∷ w) rest h k =
    rw
      (
        lacks-head 32 b w h,
        lacks-head 9 b w k,
        strsep-key w rest (lacks-tail 32 b w h) (lacks-tail 9 b w k),
      )
      refl

strsep-last : (w : List ℕ) → lacks 32 w ≡ true → lacks 9 w ≡ true → strsep w ≡ (w, none)
unfolding strsep
strsep-last [] h k = refl
strsep-last (b ∷ w) h k =
    rw
      (
        lacks-head 32 b w h,
        lacks-head 9 b w k,
        strsep-last w (lacks-tail 32 b w h) (lacks-tail 9 b w k),
      )
      refl

-- A word of the list.
pub record IsPlain (w : List ℕ) : Type 0 where
  pub no_nul : lacks 0 w ≡ true
  pub no_tab : lacks 9 w ≡ true
  pub no_newline : lacks 10 w ≡ true
  pub no_blank : lacks 32 w ≡ true

-- A key and a path, the text of their line, and that it fits the buffer.
pub record Entry : Type 0 where
  pub key : List ℕ
  pub path : List ℕ

pub record IsEntry (max_keylen : ℕ) (e : Entry) : Type 0 where
  pub key_plain : IsPlain e.key
  pub path_plain : IsPlain e.path
  pub fits : length e.key + length e.path + 3 ≤ max_keylen

body : Entry → List ℕ
body e = e.key ++ 32 ∷ e.path

pub list_text : List Entry → List ℕ
list_text [] = []
list_text (e ∷ es) = body e ++ 10 ∷ list_text es

-- The n-th file and its successors open, and give these items.
pub data Opens (max_keylen : ℕ) (opens : Open) : ℕ → List Entry → List Item → Type 0 where
  nil : {n : ℕ} → Opens max_keylen opens n [] []
  cons :
      {n fd : ℕ} {e : Entry} {es : List Entry} {items : List Item}
      → IsEntry max_keylen e
      → opens n e.path ≡ some fd
      → Opens max_keylen opens (n + 1) es items
      → Opens max_keylen opens n (e ∷ es) (record { fildes = fd; key = e.key } ∷ items)

lacks-line :
    (c : ℕ) (e : Entry)
    → lacks c e.key ≡ true
    → lacks c e.path ≡ true
    → (32 == c) ≡ false
    → lacks c (body e) ≡ true
unfolding body
lacks-line c e h k other = lacks-append c e.key (32 ∷ e.path) h (ground arith)

fields-line :
    {max_keylen : ℕ} (e : Entry)
    → IsEntry max_keylen e
    → fields (body e ++ 10 ∷ []) ≡ (e.key, some e.path)
unfolding fields body
fields-line e is =
    let cut : length ((e.key ++ 32 ∷ e.path) ++ 10 ∷ []) - 1 ≡ length (e.key ++ 32 ∷ e.path) =
      omega (arith, length-append (e.key ++ 32 ∷ e.path) (10 ∷ [])) in
    rw
      (
        cut,
        take-append (e.key ++ 32 ∷ e.path) (10 ∷ []),
        strsep-key e.key e.path is.key_plain.no_blank is.key_plain.no_tab,
        strsep-last e.path is.path_plain.no_blank is.path_plain.no_tab,
      )
      refl

line-read :
    {max_keylen : ℕ} (e : Entry) (rest : List ℕ)
    → IsEntry max_keylen e
    → fgets (max_keylen - 1) (body e ++ 10 ∷ rest) ≡ (body e ++ 10 ∷ [], rest)
unfolding body
line-read {max_keylen = max_keylen} e rest is =
    fgets-line (max_keylen - 1) (body e) rest
      (lacks-line 10 e is.key_plain.no_newline is.path_plain.no_newline refl)
      (omega (arith, length-append e.key (32 ∷ e.path), is.fits))

line-string :
    {max_keylen : ℕ} (e : Entry)
    → IsEntry max_keylen e
    → c_string (body e ++ 10 ∷ []) ≡ body e ++ 10 ∷ []
line-string e is = c_string-lacks (body e ++ 10 ∷ []) (
    lacks-append 0 (body e) (10 ∷ []) (lacks-line 0 e is.key_plain.no_nul is.path_plain.no_nul refl)
      refl)

-- One round of the loop, on a text that is not empty.
round :
    (max_keylen fuel : ℕ) (opens : Open) (n fd : ℕ) (text rest line key path : List ℕ)
    (items : List Item)
    → 0 < length text
    → fgets (max_keylen - 1) text ≡ (line, rest)
    → c_string line ≡ line
    → 0 < length line
    → fields line ≡ (key, some path)
    → opens n path ≡ some fd
    → load_loop max_keylen (suc fuel) opens n text items
      ≡ load_loop max_keylen fuel opens
          (n + 1)
          rest
          (items ++ record { fildes = fd; key = key } ∷ [])
unfolding load_loop use_line keep_item
round max_keylen fuel opens n fd [] rest line key path items some_text got str some_line parsed
      opened =
    absurd (omega arith)
round max_keylen fuel opens n fd (b ∷ bs) rest [] key path items some_text got str some_line parsed
      opened =
    absurd (omega arith)
round max_keylen fuel opens n fd (b ∷ bs) rest (c ∷ cs) key path items some_text got str some_line
      parsed opened =
    rw (got, str, parsed, opened) refl

load_loop-list_text :
    (max_keylen : ℕ) (opens : Open) (n : ℕ) (es : List Entry) (items : List Item)
    → Opens max_keylen opens n es items
    → (fuel : ℕ) (done : List Item) → length (list_text es) ≤ fuel
    → load_loop max_keylen fuel opens n (list_text es) done ≡ Loaded.loaded (done ++ items)
unfolding load_loop list_text
load_loop-list_text max_keylen opens n [] [] Opens.nil zero done enough =
    ap Loaded.loaded (sym (append-nil done))
load_loop-list_text max_keylen opens n [] [] Opens.nil (suc fuel) done enough =
    ap Loaded.loaded (sym (append-nil done))
load_loop-list_text max_keylen opens n [] (a ∷ items) impossible fuel done enough =
    elim impossible [ ]
load_loop-list_text max_keylen opens n (e ∷ es) [] impossible fuel done enough = elim impossible [ ]
load_loop-list_text max_keylen opens n (e ∷ es) (a ∷ items) (Opens.cons is opened rest) zero done
      enough =
    absurd (omega (arith, length-append (body e) (10 ∷ list_text es)))
load_loop-list_text max_keylen opens n (e ∷ es) (a ∷ items) (Opens.cons {fd = fd} is opened rest)
      (suc fuel) done enough =
    round max_keylen fuel opens n fd (body e ++ 10 ∷ list_text es) (list_text es)
      (body e ++ 10 ∷ []) e.key e.path done
      (omega (arith, length-append (body e) (10 ∷ list_text es))) (line-read e (list_text es) is)
      (line-string e is) (omega (arith, length-append (body e) (10 ∷ []))) (fields-line e is) opened
    ∙ load_loop-list_text max_keylen opens (n + 1) es items rest fuel
        (done ++ record { fildes = fd; key = e.key } ∷ [])
        (omega (arith, enough, length-append (body e) (10 ∷ list_text es)))
    ∙ ap Loaded.loaded (append_assoc done (record { fildes = fd; key = e.key } ∷ []) items)

-- On a list of lines "key path" whose words are plain, whose lines fit MAX_KEYLEN and whose files open,
-- `simplecache_init` and the two `content_init` end with the table of these files under their keys,
-- sorted.
pub load_table-list_text :
    (max_keylen : ℕ) (opens : Open) (es : List Entry) (items : List Item)
    → Opens max_keylen opens 0 es items
    → load_table max_keylen opens (some (list_text es)) ≡ Loaded.loaded (qsort items)
unfolding load_table
load_table-list_text max_keylen opens es items are =
    ap sorted_items
      (load_loop-list_text max_keylen opens 0 es items are (length (list_text es)) [] (omega arith))
