-- ===== src/ListExercise/Cutting.antt =====
-- Taking a node out of a chain.
use c_exercises.Base.{ℕ, ◌≡◌, refl, sym, ◌≢◌, false, none, some, [], ◌∷◌, ◌++◌, arith}
use c_exercises.Steque.Memory.{Ptr, null, node, Heap, write, Points, Points-new, Points-write_ne}
use c_exercises.Steque.Links.{Cells, Chain, cons, occurs, back_of, last_ptr, frame-write}

-- What is known of the two nodes, and the chain behind the cut.
pub record Cut (h : Heap) (q prev p : Ptr) (u v : ℕ) (ys zs : Cells) : Type 0 where
  pub next : Ptr
  pub before : Points h prev u p
  pub there : Points h p v next
  pub ne : p ≢ prev
  pub not_first : p ≢ q
  pub gone : occurs p zs ≡ false
  pub chain : Chain (write (write h prev (some (node u next))) p none) null q (ys ++ (prev, u) ∷ zs)

ne-head : (a p : Ptr) (v : ℕ) (xs : Cells) → occurs a ((p, v) ∷ xs) ≡ false → a ≢ p
ne-head a p v xs out e = ground (arith, out)

occurs-head :
    (a p : Ptr) (v : ℕ) (xs : Cells) → occurs a ((p, v) ∷ xs) ≡ false → occurs a xs ≡ false
occurs-head a p v xs out = ground (arith, out)

-- An address outside the whole chain is outside its pieces.
occurs-pieces :
    (a prev p : Ptr) (u v : ℕ) (ys zs : Cells)
    → occurs a (ys ++ (prev, u) ∷ (p, v) ∷ zs) ≡ false
    → (a ≢ prev) × (a ≢ p) × (occurs a (ys ++ (prev, u) ∷ zs) ≡ false)
occurs-pieces a prev p u v [] zs out = (
  ne-head a prev u ((p, v) ∷ zs) out,
  ne-head a p v zs (occurs-head a prev u ((p, v) ∷ zs) out),
  ground (arith, out),
)
occurs-pieces a prev p u v ((b, w) ∷ ys) zs out =
    let (one, two, three) =
      occurs-pieces a prev p u v ys zs (occurs-head a b w (ys ++ (prev, u) ∷ (p, v) ∷ zs) out) in
    (one, two, ground (arith, out, three))

first-Cut :
    {h : Heap} {q prev p : Ptr} {u v : ℕ} {zs : Cells}
    → Chain h null q ((prev, u) ∷ (p, v) ∷ zs)
    → Cut h q prev p u v [] zs
first-Cut {prev} {p} {u} {v} {zs} (cons e out (cons {q = r} e' out' s)) =
    let ne : p ≢ prev = λ same. ne-head prev p v zs out (sym same) in
    record {
      next = r;
      before = e;
      there = e';
      ne = ne;
      not_first = ne;
      gone = out';
      chain =
          cons (Points-write_ne (Points-new _ prev u r e.ne_null) p none (λ same. ne (sym same)))
            (occurs-head prev p v zs out)
            (frame-write p none (frame-write prev (some (node u r)) s (occurs-head prev p v zs out))
              out');
    }

pub Chain-Cut :
    {h : Heap} {q prev p : Ptr} {u v : ℕ} {zs : Cells} (ys : Cells)
    → Chain h null q (ys ++ (prev, u) ∷ (p, v) ∷ zs)
    → Cut h q prev p u v ys zs
Chain-Cut [] s = first-Cut s
Chain-Cut {prev} {p} {u} {v} {zs} ((a, w) ∷ ys) (cons e out s) =
    let c = Chain-Cut ys s in
    let (one, two, three) = occurs-pieces a prev p u v ys zs out in
    record {
      next = c.next;
      before = c.before;
      there = c.there;
      ne = c.ne;
      not_first = λ same. two (sym same);
      gone = c.gone;
      chain =
          cons (Points-write_ne (Points-write_ne e prev (some (node u c.next)) one) p none two)
            three c.chain;
    }

pub back_of-suffix :
    (ys : Cells) (c : Ptr × ℕ) (zs : Cells) → back_of (ys ++ c ∷ zs) ≡ last_ptr c zs
back_of-suffix [] c zs = refl
back_of-suffix (y ∷ []) c zs = refl
back_of-suffix (y ∷ y' ∷ ys) c zs = back_of-suffix (y' ∷ ys) c zs
