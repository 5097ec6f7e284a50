-- ===== src/Steque/Ends.antt =====
-- `steque_enqueue`, `steque_push`, `steque_pop` and `steque_front` against a list.
use c_exercises.Base.{
  ℕ, suc, ◌+◌, ◌-◌, ◌≡◌, refl, sym, ◌≢◌, false, none, some, [], ◌∷◌, ◌++◌, arith, ◌==◌,
  if◌then◌else◌, length, length-append,
}
use c_exercises.Steque.Memory.{
  Ptr, null, node, Heap, write, ok, exit, Cmd, Points-new, Points-write_ne, alloc-ok, not_null,
  load-ok, set_next-ok, free-ok,
}
use c_exercises.Steque.Links
use c_exercises.Steque.Links.{
  Cells, Chain, nil, cons, Agrees, occurs, occurs-append, back_of, back_of-append, last_ptr,
  last_item, apart, last-apart, last-Points, last-ne, relink, frame-write, fresh-not-occurs,
  head-ne-null,
}
use c_exercises.Steque.{Steque, steque, IsSteque, init, enqueue, push, pop, peek}

-- The run of a command that leaves the nodes `xs`, and touches no address outside `zs`.
pub record Leaves (h : Heap) (m : Cmd Steque) (zs xs : Cells) : Type 0 where
  pub after : Steque
  pub heap : Heap
  pub runs : m h ≡ ok after heap
  pub is : IsSteque heap after xs
  pub agrees : Agrees zs h heap

-- What `steque_pop` does when the first node is `p` with item `v`: the item is returned, the node
-- freed, and the nodes `xs` left.
pub record Pops (h : Heap) (s : Steque) (p : Ptr) (v : ℕ) (xs : Cells) : Type 0 where
  pub after : Steque
  pub runs : pop s h ≡ ok (v, after) (write h p none)
  pub is : IsSteque (write h p none) after xs

module _ {h : Heap} (fresh : Ptr) (item : ℕ) (ne : fresh ≢ null) (unused : h fresh ≡ none) where
  -- The new node behind a chain whose last node is made to point to it.
  pub appended-Chain :
      {p : Ptr} {c : Ptr × ℕ} {xs : Cells}
      → Chain h null p (c ∷ xs)
      → Chain
          (write
            (write h fresh (some (node item null)))
            (last_ptr c xs)
            (some (node (last_item c xs) fresh)))
          null
          p
          (c ∷ xs ++ (fresh, item) ∷ [])
  appended-Chain {c} {xs} s =
      let out = fresh-not-occurs fresh s unused in
      Links.append (relink fresh (frame-write fresh _ s out))
        (cons (Points-write_ne (Points-new h fresh item null ne) _ _ (last-ne fresh c xs out)) refl
          nil)
        (λ a i. rw (apart a fresh (c ∷ xs) i out))

  enqueue-Chain :
      {p b : Ptr} {n : ℕ} {xs : Cells}
      → Chain h null p xs
      → b ≡ back_of xs
      → n ≡ length xs
      → Leaves h (enqueue fresh (steque p b n) item) ((fresh, item) ∷ xs) (xs ++ (fresh, item) ∷ [])
  unfolding enqueue write
  enqueue-Chain {p} {b} {n} {xs = []} s last count = record {
    after = steque fresh fresh (n + 1);
    heap = write h fresh (some (node item null));
    runs = rw (alloc-ok h (node item null) ne, last);
    is = record {
      chain = cons (Points-new h fresh item null ne) refl nil;
      last = refl;
      count = omega arith;
    };
    agrees = ground arith;
  }
  enqueue-Chain {p} {b} {n} {xs = c ∷ xs} s last count =
      let out = fresh-not-occurs fresh s unused in
      let tail = last-Points (frame-write fresh (some (node item null)) s out) in
      record {
        after = steque p fresh (n + 1);
        heap =
            write (write h fresh (some (node item null))) (last_ptr c xs)
              (some (node (last_item c xs) fresh));
        runs = rw (alloc-ok h (node item null) ne, last, not_null tail, set_next-ok tail fresh);
        is = record {
          chain = appended-Chain s;
          last = sym (back_of-append (c ∷ xs) fresh item);
          count = omega (arith, length-append (c ∷ xs) ((fresh, item) ∷ []));
        };
        agrees = λ a o.
            let new : (a == fresh) ≡ false = ground arith in
            let old : occurs a (c ∷ xs) ≡ false = ground arith in rw (last-apart a c xs old, new);
      }

  push-back :
      {p b : Ptr} {xs : Cells}
      → Chain h null p xs
      → b ≡ back_of xs
      → (if b == null then fresh else b) ≡ back_of ((fresh, item) ∷ xs)
  push-back {xs = []} s last = rw last
  push-back {xs = c ∷ xs} s last = rw (last, not_null (last-Points s))

  push-Chain :
      {p b : Ptr} {n : ℕ} {xs : Cells}
      → Chain h null p xs
      → b ≡ back_of xs
      → n ≡ length xs
      → Leaves h (push fresh (steque p b n) item) ((fresh, item) ∷ []) ((fresh, item) ∷ xs)
  unfolding push write
  push-Chain {p} {b} {n} {xs} s last count =
      let out = fresh-not-occurs fresh s unused in
      record {
        after = steque fresh (if b == null then fresh else b) (n + 1);
        heap = write h fresh (some (node item p));
        runs = rw (alloc-ok h (node item p) ne);
        is = record {
          chain = cons (Points-new h fresh item p ne) out (frame-write fresh _ s out);
          last = push-back s last;
          count = omega arith;
        };
        agrees = ground arith;
      }

  -- Given an unused address, `steque_enqueue` adds the item behind all others, and writes only the
  -- new node and nodes of the steque.
  pub enqueue-append :
      {s : Steque} {xs : Cells}
      → IsSteque h s xs
      → Leaves h (enqueue fresh s item) ((fresh, item) ∷ xs) (xs ++ (fresh, item) ∷ [])
  enqueue-append is = enqueue-Chain is.chain is.last is.count

  -- Given an unused address, `steque_push` adds the item in front of all others, and writes only the
  -- new node.
  pub push-cons :
      {s : Steque} {xs : Cells}
      → IsSteque h s xs
      → Leaves h (push fresh s item) ((fresh, item) ∷ []) ((fresh, item) ∷ xs)
  push-cons is = push-Chain is.chain is.last is.count

module _ {h : Heap} where
  -- The head is a variable here, since a field cannot be matched against an index.
  pop-Chain :
      {p q b : Ptr} {n v : ℕ} {xs : Cells}
      → Chain h null q ((p, v) ∷ xs)
      → b ≡ back_of ((p, v) ∷ xs)
      → n ≡ suc (length xs)
      → Pops h (steque q b n) p v xs
  unfolding pop
  pop-Chain {n} (cons e out nil) last count = record {
    after = steque null null (n - 1);
    runs = rw (not_null e, load-ok e, free-ok e);
    is = record { chain = nil; last = refl; count = omega arith };
  }
  pop-Chain {p} {b} {n} (cons e out (cons {p = p'} e' out' s)) last count = record {
    after = steque p' b (n - 1);
    runs = rw (not_null e, load-ok e, free-ok e, not_null e');
    is = record {
      chain = frame-write p none (cons e' out' s) out;
      last = last;
      count = omega arith;
    };
  }

  peek-Chain :
      {p q : Ptr} {v : ℕ} {xs : Cells} (b : Ptr) (n : ℕ)
      → Chain h null q ((p, v) ∷ xs)
      → peek (steque q b n) h ≡ ok v h
  unfolding peek
  peek-Chain b n (cons e out s) = rw (not_null e, load-ok e)

  -- `steque_pop` on a steque with nodes returns the first item, frees its node and leaves the rest.
  pub pop-cons :
      {s : Steque} {p : Ptr} {v : ℕ} {xs : Cells} → IsSteque h s ((p, v) ∷ xs) → Pops h s p v xs
  pop-cons is = pop-Chain is.chain is.last is.count

  -- `steque_front` returns the first item and changes nothing.
  pub peek-cons :
      {s : Steque} {p : Ptr} {v : ℕ} {xs : Cells} → IsSteque h s ((p, v) ∷ xs) → peek s h ≡ ok v h
  peek-cons {s} is = peek-Chain s.back s.n is.chain

  front-nil : {p : Ptr} → Chain h null p [] → p ≡ null
  front-nil nil = refl

  -- On an empty steque `steque_pop` and `steque_front` leave the program.
  pub underflow_exits : {s : Steque} → IsSteque h s [] → (pop s h ≡ exit) × (peek s h ≡ exit)
  unfolding pop peek
  underflow_exits is = (rw (front-nil is.chain), rw (front-nil is.chain))

  -- `steque_init` makes an empty steque.
  pub init-IsSteque : IsSteque h init []
  unfolding init
  init-IsSteque = record { chain = nil; last = refl; count = refl }
