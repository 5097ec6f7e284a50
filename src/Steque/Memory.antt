-- ===== src/Steque/Memory.antt =====
-- The nodes of a steque, and the commands that its operations are made of.
unfoldable pub use c_exercises.Memory.{write}
pub use c_exercises.Memory.{
  null, Store, Run, ok, fault, exit, no_fuel, Command, pure, ◌>>=◌, ◌>>◌, exited, out_of_fuel,
  not_null,
}
use c_exercises.Base.{ℕ, ◌≡◌, refl, ◌≢◌, false, Option, none, some, arith, ◌==◌, if◌then◌else◌}
use c_exercises.Memory.{visit, assign, release, Lies, visit-ok, Lies-write_self, Lies-write_ne}

abbrev pub Ptr : Type 0
Ptr = ℕ

-- `steque_node_t`
pub record Node : Type 0 where
  pub item : ℕ
  pub next : Ptr

abbrev pub node : ℕ → Ptr → Node
node item next = record { item = item; next = next }

abbrev pub Heap : Type 0
Heap = Store Node

abbrev pub Cmd : Type 0 → Type 0
Cmd A = Command Node A

-- `malloc` with the writes of both fields, which fault if it returned NULL.
unfoldable pub alloc : Ptr → Node → Cmd (Unit {0})
alloc fresh n = if fresh == null then (λ h. fault) else assign fresh n

unfoldable pub load : Ptr → Cmd Node
load p = visit p pure

unfoldable pub set_next : Ptr → Ptr → Cmd (Unit {0})
set_next p q = visit p (λ n. assign p (node n.item q))

unfoldable pub free : Ptr → Cmd (Unit {0})
free p = visit p (λ n. release p)

abbrev pub Points : Heap → Ptr → ℕ → Ptr → Type 0
Points h p v q = Lies h p (node v q)

-- The commands on a node that is there.
pub load-ok : {h : Heap} {p q : Ptr} {v : ℕ} → Points h p v q → load p h ≡ ok (node v q) h
unfolding load
load-ok e = visit-ok pure e

pub set_next-ok :
    {h : Heap} {p q : Ptr} {v : ℕ}
    → Points h p v q
    → (r : Ptr) → set_next p r h ≡ ok tt (write h p (some (node v r)))
unfolding set_next
set_next-ok {p} e r = visit-ok (λ n. assign p (node n.item r)) e

pub free-ok : {h : Heap} {p q : Ptr} {v : ℕ} → Points h p v q → free p h ≡ ok tt (write h p none)
unfolding free
free-ok {p} e = visit-ok (λ n. release p) e

pub alloc-ok : (h : Heap) {p : Ptr} (n : Node) → p ≢ null → alloc p n h ≡ ok tt (write h p (some n))
unfolding alloc
alloc-ok h {p} n ne = let there : (p == null) ≡ false = ground arith in rw there refl

pub Points-new :
    (h : Heap) (p : Ptr) (v : ℕ) (q : Ptr) → p ≢ null → Points (write h p (some (node v q))) p v q
Points-new h p v q ne = Lies-write_self h p (node v q) ne

pub Points-write_ne :
    {h : Heap} {p q : Ptr} {v : ℕ}
    → Points h p v q
    → (a : Ptr) (c : Option Node) → p ≢ a
    → Points (write h a c) p v q
Points-write_ne e a c ne = Lies-write_ne e a c ne
