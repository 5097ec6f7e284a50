-- ===== src/Steque/Rotate.antt =====
-- `steque_cycle`, and `steque_destroy` with the two tests of emptiness.
use c_exercises.Base.{
  ℕ, zero, suc, ◌+◌, ◌<◌, ◌≡◌, refl, sym, ◌∙◌, true, false, none, some, [], ◌∷◌, ◌++◌, arith, ◌==◌,
  Bool-cases, inl, inr, length, length-append,
}
use c_exercises.Steque.Memory.{
  Ptr, null, node, Heap, write, ok, Cmd, Points-new, Points-write_ne, not_null, load-ok,
  set_next-ok,
}
use c_exercises.Steque.Links
use c_exercises.Steque.Links.{
  Cells, Chain, nil, cons, Agrees, occurs, back_of, back_of-append, apart, last_ptr, last_item,
  last-apart, last-Points, last-ne, relink, frame-write,
}
use c_exercises.Steque.Ends.{Leaves, pop-cons}
use c_exercises.Steque.{Steque, steque, IsSteque, is_empty, pop, cycle, destroy_loop, destroy}

module _ {h : Heap} where
  cycle-Chain :
      {p q b : Ptr} {n v : ℕ} {xs : Cells}
      → Chain h null q ((p, v) ∷ xs)
      → b ≡ back_of ((p, v) ∷ xs)
      → n ≡ suc (length xs)
      → Leaves h (cycle (steque q b n)) ((p, v) ∷ xs) (xs ++ (p, v) ∷ [])
  unfolding cycle write
  cycle-Chain {p} {n} {v} (cons e out nil) last count =
      let e' = Points-new h p v p e.ne_null in
      record {
        after = steque p p n;
        heap = write (write h p (some (node v p))) p (some (node v null));
        runs = rw (last, not_null e, set_next-ok e p, load-ok e', set_next-ok e' null);
        is = record {
          chain = cons (Points-new _ p v null e.ne_null) refl nil;
          last = refl;
          count = count;
        };
        agrees = ground arith;
      }
  cycle-Chain {p} {n} {v} {xs = c ∷ xs} (cons {q} e out s) last count =
      let tail = last-Points s in
      let ne = last-ne p c xs out in
      let e' = Points-write_ne e _ (some (node (last_item c xs) p)) ne in
      record {
        after = steque q p n;
        heap =
            write (write h (last_ptr c xs) (some (node (last_item c xs) p))) p (some (node v null));
        runs = rw (last, not_null tail, set_next-ok tail p, load-ok e', set_next-ok e' null);
        is = record {
          chain =
              Links.append (frame-write p _ (relink p s) out)
                (cons (Points-new _ p v null e.ne_null) refl nil)
                (λ a i. rw (apart a p (c ∷ xs) i out));
          last = sym (back_of-append (c ∷ xs) p v);
          count = omega (arith, length-append (c ∷ xs) ((p, v) ∷ []));
        };
        agrees = λ a o.
            let new : (a == p) ≡ false = ground arith in
            let old : occurs a (c ∷ xs) ≡ false = ground arith in rw (new, last-apart a c xs old);
      }

  -- `steque_cycle` moves the first item behind all others, and writes only nodes of the steque.
  cycle-append :
      {s : Steque} {p : Ptr} {v : ℕ} {xs : Cells}
      → IsSteque h s ((p, v) ∷ xs)
      → Leaves h (cycle s) ((p, v) ∷ xs) (xs ++ (p, v) ∷ [])
  cycle-append is = cycle-Chain is.chain is.last is.count

  -- On an empty steque `steque_cycle` does nothing.
  pub cycle-nil : {s : Steque} → IsSteque h s [] → cycle s h ≡ ok s h
  unfolding cycle
  cycle-nil is = rw is.last

-- Every node of `xs` is free in `g`, and nothing else changed.
pub record Frees (h : Heap) (xs : Cells) (g : Heap) : Type 0 where
  pub freed : (a : Ptr) → occurs a xs ≡ true → g a ≡ none
  pub agrees : Agrees xs h g

pub record Empties (h : Heap) (m : Cmd Steque) (xs : Cells) : Type 0 where
  pub after : Steque
  pub heap : Heap
  pub runs : m h ≡ ok after heap
  pub is : IsSteque heap after []
  pub frees : Frees h xs heap

Frees-cons :
    {h g : Heap} (p : Ptr) (v : ℕ) (xs : Cells)
    → Frees (write h p none) xs g
    → Frees h ((p, v) ∷ xs) g
unfolding write
Frees-cons p v xs f = record {
  freed = λ a i. elim (Bool-cases (occurs a xs)) [
    | inl rest ↦ f.freed a rest
    | inr out ↦ ground (arith, f.agrees a out)
  ];
  agrees = λ a o. ground (arith, f.agrees a);
}

nonempty : (n k : ℕ) → n ≡ suc k → (n == 0) ≡ false
nonempty n k e = ground arith

destroy_loop-pop :
    (k : ℕ) (s : Steque) (h : Heap) {v : ℕ} {s' : Steque} {g : Heap}
    → (s.n == 0) ≡ false
    → pop s h ≡ ok (v, s') g
    → destroy_loop (suc k) s h ≡ destroy_loop k s' g
unfolding destroy_loop is_empty
destroy_loop-pop k s h e runs = rw (e, destroy_loop, runs) refl

destroy_loop-Empties :
    (k : ℕ) {h : Heap} {s : Steque} (xs : Cells)
    → IsSteque h s xs
    → length xs < k
    → Empties h (destroy_loop k s) xs
unfolding destroy_loop is_empty
destroy_loop-Empties zero xs is fuel = absurd (omega arith)
destroy_loop-Empties (suc k) {h} {s} [] is fuel = record {
  after = s;
  heap = h;
  runs = rw is.count;
  is = is;
  frees = record { freed = λ a i. cc; agrees = λ a o. refl };
}
destroy_loop-Empties (suc k) {h} {s} ((p, v) ∷ xs) is fuel =
    let popped = pop-cons is in
    let rest = destroy_loop-Empties k xs popped.is (omega arith) in
    record {
      after = rest.after;
      heap = rest.heap;
      runs = destroy_loop-pop k s h (nonempty s.n (length xs) is.count) popped.runs ∙ rest.runs;
      is = rest.is;
      frees = Frees-cons p v xs rest.frees;
    }

-- `steque_destroy` ends with an empty steque, frees every node and touches nothing else.
pub destroy-Empties :
    {h : Heap} {s : Steque} {xs : Cells} → IsSteque h s xs → Empties h (destroy s) xs
unfolding destroy
destroy-Empties {s} {xs} is = destroy_loop-Empties (s.n + 1) xs is (omega (arith, is.count))
