-- ===== src/Text.antt =====
-- What the programs use of the C library's text functions, on bytes: string literals, `snprintf` of
-- `%zu`, and `sscanf` of `%Ns` and `%zu`.
pub mod Numbers
pub mod Integers
use Prim.Native.Char.{code}
use Prim.Native.String.{String}
use c_exercises.Base.{
  ℕ, zero, suc, ◌+◌, ◌-◌, ◌*◌, ◌/◌, ◌%◌, ◌^◌, Bool, true, false, not, ◌&&◌, ◌||◌, Option, none,
  some, List, [], ◌∷◌, ◌==◌, ltb, leb, if◌then◌else◌,
}

-- The bytes of an ASCII literal.
abbrev pub codes : String → List ℕ
codes String.[] = []
codes (String.◌∷◌ c s) = code c ∷ codes s

-- A buffer as a C string: what stands before the first NUL.
abbrev pub c_string : List ℕ → List ℕ
c_string [] = []
c_string (c ∷ s) = if c == 0 then [] else c ∷ c_string s

-- The byte `c` does not occur.
abbrev pub lacks : ℕ → List ℕ → Bool
lacks c [] = true
lacks c (d ∷ s) = not (d == c) && lacks c s

-- `isspace` in the C locale.
abbrev pub is_space : ℕ → Bool
is_space c = c == 32 || (leb 9 c && leb c 13)

abbrev pub is_digit : ℕ → Bool
is_digit c = leb 48 c && leb c 57

abbrev pub skip_space : List ℕ → List ℕ
skip_space [] = []
skip_space (c ∷ s) = if is_space c then skip_space s else c ∷ s

-- At most `n` bytes that are no white space, and the rest.
abbrev pub take_word : ℕ → List ℕ → List ℕ × List ℕ
take_word zero s = ([], s)
take_word (suc n) [] = ([], [])
take_word (suc n) (c ∷ s) =
    let (w, r) = take_word n s in if is_space c then ([], c ∷ s) else (c ∷ w, r)

abbrev pub nonempty_word : List ℕ × List ℕ → Option (List ℕ × List ℕ)
nonempty_word ([], r) = none
nonempty_word (c ∷ w, r) = some (c ∷ w, r)

-- The conversion `%ns`.
unfoldable pub scan_word : ℕ → List ℕ → Option (List ℕ × List ℕ)
scan_word n s = nonempty_word (take_word n (skip_space s))

abbrev pub size_mod : ℕ
size_mod = 2 ^ 64

-- The value of the digits at the front, behind the value `v` read so far.
unfoldable pub read_digits : ℕ → List ℕ → ℕ
read_digits v [] = v
read_digits v (c ∷ s) = if is_digit c then read_digits (v * 10 + (c - 48)) s else v

-- `strtoul` stops at the largest value.
abbrev pub saturate : ℕ → ℕ
saturate v = if ltb v size_mod then v else size_mod - 1

unfoldable pub scan_unsigned : List ℕ → Option ℕ
unfolding read_digits
scan_unsigned [] = none
scan_unsigned (c ∷ s) = if is_digit c then some (saturate (read_digits 0 (c ∷ s))) else none

abbrev pub negate : Option ℕ → Option ℕ
negate none = none
negate (some v) = some ((size_mod - v) % size_mod)

abbrev pub scan_signed : List ℕ → Option ℕ
unfolding scan_unsigned
scan_signed [] = none
scan_signed (c ∷ s) =
    if c == b'-'
    then negate (scan_unsigned s)
    else if c == b'+'
    then scan_unsigned s
    else scan_unsigned (c ∷ s)

-- The conversion `%zu`, which takes a sign as `strtoul` does.
unfoldable pub scan_size : List ℕ → Option ℕ
unfolding scan_unsigned
scan_size s = scan_signed (skip_space s)

-- The decimal digits of `n` in front of `acc`; `fuel` bounds their number.
unfoldable pub digits_onto : ℕ → ℕ → List ℕ → List ℕ
digits_onto zero n acc = acc
digits_onto (suc fuel) n acc =
    let more = digits_onto fuel (n / 10) ((48 + n % 10) ∷ acc) in
    if ltb n 10 then (48 + n) ∷ acc else more

-- The conversion `%zu` of `snprintf`.
unfoldable pub show_size : ℕ → List ℕ
unfolding digits_onto
show_size n = digits_onto (suc n) n []
