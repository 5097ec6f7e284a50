-- ===== src/Cache/Tests.antt =====
-- A table of two files.
use c_exercises.Base.{◌+◌, ◌≡◌, refl, some, List, [], ◌∷◌, arith}
use c_exercises.Text.{codes}
use c_exercises.Cache.{
  Item, Cache, simplecache_get, strcmp, insert, qsort, Open, Loaded, load_table,
}
use c_exercises.Cache.Search.{Holds, Gets, simplecache_get-Gets}
use c_exercises.Cache.Listed.{Finds, simplecache_get-init}
use c_exercises.Cache.Sort.{qsort-sorts}
use c_exercises.Cache.Load.{Entry, list_text, Opens, load_table-list_text}

abbrev one : Item
one = record { fildes = 4; key = codes "/one" }

abbrev two : Item
two = record { fildes = 3; key = codes "/two" }

abbrev cache : Cache
cache = record { items = qsort (two ∷ one ∷ []); offsets = λ fd. 9 }

simplecache_get-Gets_example : Gets cache (codes "/two") (simplecache_get cache (codes "/two"))
simplecache_get-Gets_example =
    simplecache_get-Gets cache (codes "/two") (qsort-sorts (two ∷ one ∷ [])).0

-- The n-th file that is opened gets the descriptor n + 3.
abbrev opens_all : Open
opens_all n path = some (n + 3)

abbrev listed : List Entry
listed =
    record { key = codes "/two"; path = codes "b.txt" }
    ∷ record { key = codes "/one"; path = codes "a.txt" }
    ∷ []

listed-Opens : Opens 1020 opens_all 0 listed (two ∷ one ∷ [])
listed-Opens =
    Opens.cons
      (record {
        key_plain = record { no_nul = refl; no_tab = refl; no_newline = refl; no_blank = refl };
        path_plain = record { no_nul = refl; no_tab = refl; no_newline = refl; no_blank = refl };
        fits = omega arith;
      })
      refl
      (Opens.cons
        (record {
          key_plain = record { no_nul = refl; no_tab = refl; no_newline = refl; no_blank = refl };
          path_plain = record { no_nul = refl; no_tab = refl; no_newline = refl; no_blank = refl };
          fits = omega arith;
        })
        refl Opens.nil)

load_table-list_text_example :
    load_table 1020 opens_all (some (list_text listed)) ≡ Loaded.loaded (qsort (two ∷ one ∷ []))
load_table-list_text_example =
    load_table-list_text 1020 opens_all listed (two ∷ one ∷ []) listed-Opens

one-Holds : Holds (two ∷ one ∷ []) one
unfolding Holds
one-Holds = (1, refl)

sorted_table : qsort (two ∷ one ∷ []) ≡ one ∷ two ∷ []
unfolding qsort insert strcmp
sorted_table = refl

simplecache_get-init_example : Finds opens_all (list_text listed) (codes "/one") (λ fd. 9)
simplecache_get-init_example =
    simplecache_get-init opens_all listed (two ∷ one ∷ []) one (λ fd. 9) listed-Opens one-Holds
