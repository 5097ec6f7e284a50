-- ===== src/Steque/Links.antt =====
-- Chains of nodes, and what a write does to them.
use mathlib.Core.Bool.{or_assoc}
use c_exercises.Base.{
  ℕ, ◌≡◌, refl, sym, subst, ◌≢◌, Bool, true, false, ◌||◌, Option, none, some, List, [], ◌∷◌, ◌++◌,
  arith, ◌==◌,
}
use c_exercises.Steque.Memory.{Ptr, null, node, Node, Heap, write, Points, Points-write_ne}

-- Address and item of each node, in order.
abbrev pub Cells : Type 0
Cells = List (Ptr × ℕ)

abbrev pub occurs : Ptr → Cells → Bool
occurs a [] = false
occurs a ((p, _) ∷ xs) = (a == p) || occurs a xs

-- The items alone: what the queue holds, whatever its addresses.
abbrev pub items : Cells → List ℕ
items [] = []
items ((_, v) ∷ xs) = v ∷ items xs

abbrev pub Agrees : Cells → Heap → Heap → Type 0
Agrees xs h g = (a : Ptr) → occurs a xs ≡ false → g a ≡ h a

-- From `p` the next pointers lead through the distinct nodes `xs` to `stop`.
pub data Chain (h : Heap) (stop : Ptr) : Ptr → Cells → Type 0 where
  nil : Chain h stop stop []
  cons :
      {p q : Ptr} {v : ℕ} {xs : Cells}
      → Points h p v q
      → occurs p xs ≡ false
      → Chain h stop q xs
      → Chain h stop p ((p, v) ∷ xs)

-- The last of the nodes `c ∷ xs`, and its item.
abbrev pub last_ptr : Ptr × ℕ → Cells → Ptr
last_ptr (p, _) [] = p
last_ptr _ (d ∷ xs) = last_ptr d xs

abbrev pub last_item : Ptr × ℕ → Cells → ℕ
last_item (_, v) [] = v
last_item _ (d ∷ xs) = last_item d xs

-- What `back` points to.
abbrev pub back_of : Cells → Ptr
back_of [] = null
back_of (c ∷ xs) = last_ptr c xs

pub occurs-append : (a : Ptr) (xs ys : Cells) → occurs a (xs ++ ys) ≡ (occurs a xs || occurs a ys)
occurs-append a [] ys = refl
occurs-append a (x ∷ xs) ys = rw (occurs-append a xs ys, or_assoc)

pub back_of-append : (xs : Cells) (p : Ptr) (v : ℕ) → back_of (xs ++ (p, v) ∷ []) ≡ p
back_of-append [] p v = refl
back_of-append (c ∷ []) p v = refl
back_of-append (c ∷ d ∷ xs) p v = back_of-append (d ∷ xs) p v

pub items-append : (xs ys : Cells) → items (xs ++ ys) ≡ items xs ++ items ys
items-append [] ys = refl
items-append ((p, v) ∷ xs) ys = rw (items-append xs ys)

occurs-last : (c : Ptr × ℕ) (xs : Cells) → occurs (last_ptr c xs) (c ∷ xs) ≡ true
occurs-last (p, v) [] = ground arith
occurs-last (p, v) (d ∷ xs) = ground (arith, occurs-last d xs)

pub apart : (a p : Ptr) (xs : Cells) → occurs a xs ≡ true → occurs p xs ≡ false → (a == p) ≡ false
apart a p xs i out = ground arith

pub last-apart :
    (a : Ptr) (c : Ptr × ℕ) (xs : Cells) → occurs a (c ∷ xs) ≡ false → (a == last_ptr c xs) ≡ false
last-apart a c xs out = ground (arith, apart (last_ptr c xs) a (c ∷ xs) (occurs-last c xs) out)

pub last-ne : (p : Ptr) (c : Ptr × ℕ) (xs : Cells) → occurs p (c ∷ xs) ≡ false → p ≢ last_ptr c xs
last-ne p c xs out e =
    let inside : occurs p (c ∷ xs) ≡ true =
      subst (λ a. occurs a (c ∷ xs) ≡ true) (sym e) (occurs-last c xs) in
    cc

module _ {h : Heap} where
  -- A chain survives any change that spares its own nodes.
  pub frame :
      {stop : Ptr} {g : Heap} {p : Ptr} {xs : Cells}
      → Chain h stop p xs
      → ((a : Ptr) → occurs a xs ≡ true → g a ≡ h a)
      → Chain g stop p xs
  frame nil kept = nil
  frame (cons {p} e out s) kept =
      cons (ground (arith, kept p)) out (frame s λ a i. kept a (ground arith))

  pub frame-write :
      {stop : Ptr} {p : Ptr} {xs : Cells} (a : Ptr) (c : Option Node)
      → Chain h stop p xs
      → occurs a xs ≡ false
      → Chain (write h a c) stop p xs
  unfolding write
  frame-write a c s out = frame s (ground arith)

  pub fresh-not-occurs :
      {stop : Ptr} {p : Ptr} {xs : Cells} (a : Ptr)
      → Chain h stop p xs
      → h a ≡ none
      → occurs a xs ≡ false
  fresh-not-occurs a nil unused = refl
  fresh-not-occurs a (cons e out s) unused = ground (arith, fresh-not-occurs a s unused)

  -- The last node points to NULL.
  pub last-Points :
      {p : Ptr} {c : Ptr × ℕ} {xs : Cells}
      → Chain h null p (c ∷ xs)
      → Points h (last_ptr c xs) (last_item c xs) null
  last-Points (cons e out nil) = e
  last-Points (cons e out (cons e' out' s)) = last-Points (cons e' out' s)

  -- Redirecting the last node's pointer to `q` makes the chain lead to `q`.
  pub relink :
      {p : Ptr} {c : Ptr × ℕ} {xs : Cells} (q : Ptr)
      → Chain h null p (c ∷ xs)
      → Chain (write h (last_ptr c xs) (some (node (last_item c xs) q))) q p (c ∷ xs)
  unfolding write
  relink q (cons e out nil) = cons (ground arith) refl nil
  relink q (cons {p} e out (cons {p = p'} {v = v'} {xs} e' out' s)) =
      cons (Points-write_ne e _ _ (last-ne p (p', v') xs out)) out (relink q (cons e' out' s))

  -- Behind a chain that leads to `p` another one goes on.
  pub append :
      {mid stop : Ptr} {p : Ptr} {ys xs : Cells}
      → Chain h mid p xs
      → Chain h stop mid ys
      → ((a : Ptr) → occurs a xs ≡ true → occurs a ys ≡ false)
      → Chain h stop p (xs ++ ys)
  append nil t apart = t
  append (cons {p} e out s) t apart =
      cons e (rw (occurs-append, out) (apart p (ground arith)))
        (append s t λ a i. apart a (ground arith))

  pub head-ne-null : {p : Ptr} {c : Ptr × ℕ} {xs : Cells} → Chain h null p (c ∷ xs) → p ≢ null
  head-ne-null (cons e out s) = e.ne_null
