-- ===== src/Memory.antt =====
-- The memory that pointer programs of the repository work on: cells of one type, each a whole struct,
-- and commands that may fault or leave the program.
use c_exercises.Base.{ℕ, ◌≡◌, refl, ◌≢◌, false, Option, none, some, arith, ◌==◌, if◌then◌else◌}

abbrev pub null : ℕ
null = 0

-- What lies at an address; `none` is an address that was never allocated, or is freed.
abbrev pub Store : Type 0 → Type 0
Store N = ℕ → Option N

unfoldable pub write : {N : Type 0} → Store N → ℕ → Option N → Store N
write h p c a = if a == p then c else h a

-- `fault` is an access through NULL or to a freed address, `exit` the program's own way out.
pub data Run (N A : Type 0) : Type 0 where
  fault exit no_fuel : Run N A
  ok : A → Store N → Run N A

abbrev pub Command : Type 0 → Type 0 → Type 0
Command N A = Store N → Run N A

abbrev pub pure : {N A : Type 0} → A → Command N A
pure a h = ok a h

abbrev pub continue : {N A B : Type 0} → (A → Command N B) → Run N A → Run N B
continue f fault = fault
continue f exit = exit
continue f no_fuel = no_fuel
continue f (ok a h) = f a h

infixl 5 ◌>>=◌ ◌>>◌
abbrev pub ◌>>=◌ : {N A B : Type 0} → Command N A → (A → Command N B) → Command N B
(c >>= f) h = continue f (c h)

abbrev pub ◌>>◌ : {N A B : Type 0} → Command N A → Command N B → Command N B
(c >> d) h = continue (λ _. d) (c h)

-- `exit(...)`
abbrev pub exited : {N A : Type 0} → Command N A
exited h = exit

abbrev pub out_of_fuel : {N A : Type 0} → Command N A
out_of_fuel h = no_fuel

-- An access through the pointer `p`.
unfoldable pub visit : {N A : Type 0} → ℕ → (N → Command N A) → Command N A
visit p f h = if p == null then fault else elim (h p) [ some n ↦ f n h | none ↦ fault ]

-- Writing a struct to `p`, and giving `p` back.
abbrev pub assign : {N : Type 0} → ℕ → N → Command N (Unit {0})
assign p n h = ok tt (write h p (some n))

abbrev pub release : {N : Type 0} → ℕ → Command N (Unit {0})
release p h = ok tt (write h p none)

-- The struct `n` lies at `p`.
pub record Lies {N : Type 0} (h : Store N) (p : ℕ) (n : N) : Type 0 where
  pub ne_null : p ≢ null
  pub holds : h p ≡ some n

pub not_null : {N : Type 0} {h : Store N} {p : ℕ} {n : N} → Lies h p n → (p == null) ≡ false
not_null e = ground (arith, e.ne_null)

-- An access to a struct goes on with it.
pub visit-ok :
    {N A : Type 0} {h : Store N} {p : ℕ} {n : N} (f : N → Command N A)
    → Lies h p n
    → visit p f h ≡ f n h
unfolding visit
visit-ok f e = rw (not_null e, e.holds) refl

pub Lies-write_self :
    {N : Type 0} (h : Store N) (p : ℕ) (n : N) → p ≢ null → Lies (write h p (some n)) p n
unfolding write
Lies-write_self h p n ne = ground arith

pub Lies-write_ne :
    {N : Type 0} {h : Store N} {p : ℕ} {n : N}
    → Lies h p n
    → (a : ℕ) (c : Option N) → p ≢ a
    → Lies (write h a c) p n
unfolding write
Lies-write_ne e a c ne = ground (arith, e.ne_null, e.holds)
