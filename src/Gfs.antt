-- ===== src/Gfs.antt =====
-- What a handler uses of the GETFILE server library that is linked in as an object file in
-- projects/mtgf and projects/proxycacheserver: gfs_sendheader, gfs_send and gfs_abort, with their
-- documented behaviour as laws. Contexts are numbered.
pub mod Log
use c_exercises.Base.{
  ℕ, ◌≤◌, ◌≡◌, refl, sym, ◌∙◌, ap, List, ◌++◌, [], ◌∷◌, length, take, append_assoc, ℤ, pos,
}

-- What goes out on a context, in the order in which it is sent: headers, each with its status and
-- length, and bytes.
pub data Piece : Type 0 where
  header : (status len : ℕ) → Piece
  byte : ℕ → Piece

abbrev pub bytes : List ℕ → List Piece
bytes [] = []
bytes (b ∷ bs) = byte b ∷ bytes bs

-- `output w ctx` is what has been sent on a context so far.
pub record Gfs : Type 1 where
  pub World : Type 0
  pub output : World → ℕ → List Piece
  pub gfs_sendheader : ℕ → ℕ → ℕ → World → ℤ × World
  pub gfs_send : ℕ → List ℕ → World → ℤ × World
  pub gfs_abort : ℕ → World → World
  pub header_sent :
      (ctx status len : ℕ) (w : World) (n : ℕ)
      → (gfs_sendheader ctx status len w).0 ≡ pos n
      → output (gfs_sendheader ctx status len w).1 ctx ≡ output w ctx ++ header status len ∷ []
  pub data_sent :
      (ctx : ℕ) (d : List ℕ) (w : World) (n : ℕ)
      → (gfs_send ctx d w).0 ≡ pos n
      → (n ≤ length d) × (output (gfs_send ctx d w).1 ctx ≡ output w ctx ++ bytes (take n d))

bytes-append : (xs ys : List ℕ) → bytes (xs ++ ys) ≡ bytes xs ++ bytes ys
bytes-append [] ys = refl
bytes-append (x ∷ xs) ys = ap (λ t. byte x ∷ t) (bytes-append xs ys)

-- Two parts that are sent one behind the other are the whole.
pub sent_next :
    (a : List Piece) {b c : List Piece} (xs ys : List ℕ)
    → b ≡ a ++ bytes xs
    → c ≡ b ++ bytes ys
    → c ≡ a ++ bytes (xs ++ ys)
sent_next a xs ys first second =
    second
    ∙ ap (λ t. t ++ bytes ys) first
    ∙ append_assoc a (bytes xs) (bytes ys)
    ∙ ap (λ t. a ++ t) (sym (bytes-append xs ys))

-- A body behind its header.
pub sent_behind :
    (a : List Piece) {b c : List Piece} (p : Piece) (ps : List Piece)
    → b ≡ a ++ p ∷ []
    → c ≡ b ++ ps
    → c ≡ a ++ p ∷ ps
sent_behind a p ps first second = second ∙ ap (λ t. t ++ ps) first ∙ append_assoc a (p ∷ []) ps
