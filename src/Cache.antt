-- ===== src/Cache.antt =====
-- The file cache of projects/proxycacheserver/cache/simplecache.c: the table of open files that
-- `simplecache_init` reads from a list of keys and paths, and the search of `simplecache_get`.
-- gflib/content.c and mtgf/content.c hold the same code with other limits.
pub mod Order
pub mod Search
pub mod Sort
pub mod Load
pub mod Listed
mod Tests
use Prim.Native.Nat.{compare, Ordering}
use c_exercises.Base.{
  ℕ, zero, suc, ◌+◌, ◌-◌, ◌/◌, Bool, true, false, Option, none, some, List, [], ◌∷◌, ◌++◌, ◌==◌,
  ltb, if◌then◌else◌, length, get_elem?, take, ◌||◌, ℤ, pos, minus_one,
}
use c_exercises.Text.{c_string}

-- `item_t`
pub record Item : Type 0 where
  pub fildes : ℕ
  pub key : List ℕ

-- `strcmp`, on strings without their terminators.
unfoldable pub strcmp : List ℕ → List ℕ → Ordering
strcmp [] [] = Ordering.eq
strcmp [] (_ ∷ _) = Ordering.lt
strcmp (_ ∷ _) [] = Ordering.gt
strcmp (x ∷ xs) (y ∷ ys) = elim (compare x y) [
  | Ordering.lt ↦ Ordering.lt
  | Ordering.eq ↦ strcmp xs ys
  | Ordering.gt ↦ Ordering.gt
]

-- What the search returns; the other two never happen.
pub data Lookup : Type 0 where
  found : Item → Lookup
  absent out_of_bounds out_of_fuel : Lookup

-- The loop of `simplecache_get`. Since `hi` starts at -1 for an empty table, `top` is `hi + 1`:
-- `mid` is `lo + (hi - lo) / 2`, `hi = mid - 1` is `top = mid`. The fuel bounds the rounds.
unfoldable pub search_loop : ℕ → List Item → List ℕ → ℕ → ℕ → Lookup
search_loop zero items key lo top = Lookup.out_of_fuel
search_loop (suc fuel) items key lo top = elim (ltb lo top) [
  | false ↦ Lookup.absent
  | true ↦ elim (get_elem? items (lo + (top - 1 - lo) / 2)) [
    | none ↦ Lookup.out_of_bounds
    | some item ↦ elim (strcmp key item.key) [
      | Ordering.lt ↦ search_loop fuel items key lo (lo + (top - 1 - lo) / 2)
      | Ordering.gt ↦ search_loop fuel items key (lo + (top - 1 - lo) / 2 + 1) top
      | Ordering.eq ↦ Lookup.found item
    ]
  ]
]

-- `items` and `nitems`, and the offsets of the open files.
pub record Cache : Type 0 where
  pub items : List Item
  pub offsets : ℕ → ℕ

-- `lseek(fildes, 0, SEEK_SET)`
abbrev pub rewind : ℕ → (ℕ → ℕ) → ℕ → ℕ
rewind fd offsets g = if g == fd then 0 else offsets g

abbrev pub fetch : Cache → Lookup → ℤ × Cache
fetch c (Lookup.found item) = (pos item.fildes, record c { offsets = rewind item.fildes c.offsets })
fetch c _ = (minus_one, c)

unfoldable pub simplecache_get : Cache → List ℕ → ℤ × Cache
simplecache_get c key = fetch c (search_loop (suc (length c.items)) c.items key 0 (length c.items))

-- `qsort(items, nitems, sizeof(item_t), _itemcmp)`, as an insertion sort.
unfoldable pub insert : Item → List Item → List Item
insert a [] = a ∷ []
insert a (b ∷ bs) = elim (strcmp a.key b.key) [ Ordering.gt ↦ b ∷ insert a bs | _ ↦ a ∷ b ∷ bs ]

unfoldable pub qsort : List Item → List Item
qsort [] = []
qsort (a ∷ bs) = insert a (qsort bs)

-- `fgets` with a buffer of `n + 1` bytes: the line, with its newline, and what is left.
unfoldable pub fgets : ℕ → List ℕ → List ℕ × List ℕ
fgets zero text = ([], text)
fgets (suc n) [] = ([], [])
fgets (suc n) (b ∷ bs) =
    let rest = fgets n bs in if b == 10 then (b ∷ [], bs) else (b ∷ rest.0, rest.1)

-- `strsep(&ptr, " \t")`: the token, and where `ptr` points then.
unfoldable pub strsep : List ℕ → List ℕ × Option (List ℕ)
strsep [] = ([], none)
strsep (b ∷ bs) =
    let rest = strsep bs in if b == 32 || b == 9 then ([], some bs) else (b ∷ rest.0, rest.1)

-- The path behind the key; `none` is NULL.
abbrev pub second : Option (List ℕ) → Option (List ℕ)
second none = none
second (some s) = some (strsep s).0

-- The key and the path of a line that ends in one more character, which is cut off.
unfoldable pub fields : List ℕ → List ℕ × Option (List ℕ)
fields line = let key = strsep (take (length line - 1) line) in (key.0, second key.1)

-- How `simplecache_init` ends; `overruns` is the write in front of an empty key.
pub data Loaded : Type 0 where
  loaded : List Item → Loaded
  exits overruns out_of_fuel : Loaded

-- What `open(path, O_RDONLY)` returns when it is the n-th file; an error, also of NULL, is `none`.
abbrev pub Open : Type 0
Open = ℕ → List ℕ → Option ℕ

abbrev pub open_path : Open → ℕ → Option (List ℕ) → Option ℕ
open_path opens n none = none
open_path opens n (some path) = opens n path

-- The rest of a round, `next` being the loop's next round: behind `open`, and from the string that
-- `fgets` has left in the key on.
unfoldable pub keep_item :
    (ℕ → List ℕ → List Item → Loaded) → ℕ → List ℕ → List ℕ → List Item → Option ℕ → Loaded
keep_item next n key rest items none = Loaded.exits
keep_item next n key rest items (some fd) =
    next (n + 1) rest (items ++ record { fildes = fd; key = key } ∷ [])

unfoldable pub use_line :
    (ℕ → List ℕ → List Item → Loaded) → Open → ℕ → List ℕ → List ℕ → List Item → Loaded
use_line next opens n [] rest items = Loaded.overruns
use_line next opens n (b ∷ bs) rest items =
    let entry = fields (b ∷ bs) in keep_item next n entry.0 rest items (open_path opens n entry.1)

-- The loop of `simplecache_init` at the n-th item, with MAX_KEYLEN. A round reads a byte or more, so the fuel is the
-- length of the text. The table grows with its items.
unfoldable pub load_loop : ℕ → ℕ → Open → ℕ → List ℕ → List Item → Loaded
load_loop max_keylen fuel opens n [] items = Loaded.loaded items
load_loop max_keylen zero opens n (b ∷ bs) items = Loaded.out_of_fuel
load_loop max_keylen (suc fuel) opens n (b ∷ bs) items =
    let line = fgets (max_keylen - 1) (b ∷ bs) in
    use_line (load_loop max_keylen fuel opens) opens n (c_string line.0) line.1 items

abbrev pub sorted_items : Loaded → Loaded
sorted_items (Loaded.loaded items) = Loaded.loaded (qsort items)
sorted_items other = other

-- The whole, by MAX_KEYLEN; `none` is a list of files that cannot be opened.
unfoldable pub load_table : ℕ → Open → Option (List ℕ) → Loaded
load_table max_keylen opens none = Loaded.exits
load_table max_keylen opens (some text) =
    sorted_items (load_loop max_keylen (length text) opens 0 text [])

unfoldable pub simplecache_init : Open → Option (List ℕ) → Loaded
simplecache_init = load_table 1020

-- `content_init` of projects/gflib and of projects/mtgf.
unfoldable pub gflib_content_init : Open → Option (List ℕ) → Loaded
gflib_content_init = load_table 256

unfoldable pub mtgf_content_init : Open → Option (List ℕ) → Loaded
mtgf_content_init = load_table 512

-- `content_get` of projects/mtgf, which leaves the offsets; the one of projects/gflib is
-- `simplecache_get`.
abbrev pub descriptor : Lookup → ℤ
descriptor (Lookup.found item) = pos item.fildes
descriptor _ = minus_one

unfoldable pub mtgf_content_get : List Item → List ℕ → ℤ
unfolding search_loop
mtgf_content_get items key =
    descriptor (search_loop (suc (length items)) items key 0 (length items))

-- `simplecache_destroy` closes the files in order.
unfoldable pub simplecache_destroy : List Item → List ℕ
simplecache_destroy [] = []
simplecache_destroy (a ∷ bs) = a.fildes ∷ simplecache_destroy bs
