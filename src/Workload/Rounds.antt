-- ===== src/Workload/Rounds.antt =====
-- The order in which workload.c gives its paths out.
use native.Mathlib.Nat.{mod-eq_of_lt, mul-add-mod_self_right}
use c_exercises.Base.{
  ℕ, zero, suc, ◌+◌, ◌*◌, ◌%◌, ◌<◌, ◌≤◌, ◌≡◌, refl, ◌∙◌, ap, subst, List, [], ◌∷◌, map, arith,
  false, ◌==◌, lt→ltb, length, drop, get_elem?-some, get_elem?, some,
}
use c_exercises.Workload.{
  Entry, Workload, int_max_count, array_entry, entry_at, workload_get_path, int_mod,
  workload_num_unique_paths,
}

-- The results of so many calls of `workload_get_path`, and the state behind them.
unfoldable pub next_paths : ℕ → Workload → List Entry × Workload
next_paths zero s = ([], s)
next_paths (suc n) s =
    let (e, s1) = workload_get_path s in let (es, s2) = next_paths n s1 in (e ∷ es, s2)

get_elem?-drop :
    (ps : List (List ℕ)) (i : ℕ) (p : List ℕ) (suf : List (List ℕ))
    → drop i ps ≡ p ∷ suf
    → get_elem? ps i ≡ some p
get_elem?-drop [] zero p suf h = absurd (cc h)
get_elem?-drop [] (suc i) p suf h = absurd (cc h)
get_elem?-drop (x ∷ ps) zero p suf h = cc h
get_elem?-drop (x ∷ ps) (suc i) p suf h = get_elem?-drop ps i p suf h

drop-suc :
    (ps : List (List ℕ)) (i : ℕ) (p : List ℕ) (suf : List (List ℕ))
    → drop i ps ≡ p ∷ suf
    → drop (suc i) ps ≡ suf
drop-suc [] zero p suf h = absurd (cc h)
drop-suc [] (suc i) p suf h = absurd (cc h)
drop-suc (x ∷ ps) zero p suf h = cc h
drop-suc (x ∷ ps) (suc i) p suf h = drop-suc ps i p suf h

-- In round `q` the entry is the rest of the counter.
entry_at-round :
    (ps : List (List ℕ)) (q r : ℕ)
    → r < length ps
    → q * length ps + r < int_max_count
    → entry_at ps (q * length ps + r) ≡ array_entry (get_elem? ps r)
unfolding entry_at
entry_at-round ps q r inside small =
    let rest : (q * length ps + r) % length ps ≡ r =
      mul-add-mod_self_right q (length ps) r ∙ mod-eq_of_lt inside in
    let some_path : (length ps == 0) ≡ false = ground arith in
    rw (some_path, lt→ltb (q * length ps + r) int_max_count small, rest) refl

rest-paths :
    (ps : List (List ℕ)) (q i : ℕ) (suf : List (List ℕ))
    → drop i ps ≡ suf
    → q * length ps + i + length suf ≤ int_max_count
    → next_paths (length suf) (record { paths = ps; counter = q * length ps + i })
      ≡ (map Entry.path suf, record { paths = ps; counter = q * length ps + i + length suf })
unfolding next_paths workload_get_path
rest-paths ps q i [] h small = ap (λ c. ([], record { paths = ps; counter = c })) (omega arith)
rest-paths ps q i (p ∷ suf) h small =
    let here : entry_at ps (q * length ps + i) ≡ Entry.path p =
      entry_at-round ps q i (get_elem?-some ps i p (get_elem?-drop ps i p suf h)) (omega arith)
      ∙ ap array_entry (get_elem?-drop ps i p suf h) in
    let next : (q * length ps + i + 1) % int_mod ≡ q * length ps + suc i =
      mod-eq_of_lt (omega arith) ∙ omega arith in
    let later = rest-paths ps q (suc i) suf (drop-suc ps i p suf h) (omega arith) in
    let count : q * length ps + suc i + length suf ≡ q * length ps + i + length (p ∷ suf) =
      omega arith in
    rw (here, next, later, count) refl

-- A round of the sequential mode: if the counter stands at a multiple of the number of paths and
-- does not pass 2 ^ 31 in the round, as many calls of `workload_get_path` as there are paths give
-- every path once, in the order of the list, and the counter stands at the next multiple.
next_paths-round :
    (ps : List (List ℕ)) (q : ℕ)
    → q * length ps + length ps ≤ int_max_count
    → next_paths
        (workload_num_unique_paths (record { paths = ps; counter = q * length ps }))
        (record { paths = ps; counter = q * length ps })
      ≡ (map Entry.path ps, record { paths = ps; counter = suc q * length ps })
unfolding workload_num_unique_paths
next_paths-round ps q small =
    subst
      (λ c.
        next_paths (length ps) (record { paths = ps; counter = c })
        ≡ (map Entry.path ps, record { paths = ps; counter = c + length ps }))
      (omega arith) (rest-paths ps q 0 ps refl (omega arith))
    ∙ ap (λ c. (map Entry.path ps, record { paths = ps; counter = c })) (ground arith)
