-- ===== src/Text/Integers.antt =====
-- `atoi` of the C library, and the conversion of its result to a narrower type.
use c_exercises.Base.{
  ℕ, suc, ◌-◌, ◌%◌, ◌^◌, Bool, true, false, List, [], ◌∷◌, ◌==◌, ltb, leb, if◌then◌else◌, ℤ, pos,
  negsuc,
}
use c_exercises.Text.{skip_space, read_digits}

abbrev pub long_mod : ℕ
long_mod = 2 ^ 64

abbrev pub long_bound : ℕ
long_bound = 2 ^ 63

abbrev pub int_mod : ℕ
int_mod = 2 ^ 32

abbrev pub int_bound : ℕ
int_bound = 2 ^ 31

-- The bits of a `long` of this sign and magnitude; `strtol` stops at the ends of the type.
abbrev pub long_bits : Bool → ℕ → ℕ
long_bits false v = if ltb v long_bound then v else long_bound - 1
long_bits true v = (long_mod - (if leb v long_bound then v else long_bound)) % long_mod

-- The `int` with these bits.
abbrev pub to_int : ℕ → ℤ
to_int bits = if ltb bits int_bound then pos bits else negsuc (int_mod - suc bits)

abbrev pub digits_value : List ℕ → Bool → ℤ
digits_value s minus = to_int (long_bits minus (read_digits 0 s) % int_mod)

unfoldable pub signed_value : List ℕ → ℤ
unfolding read_digits
signed_value [] = pos 0
signed_value (c ∷ s) =
    if c == b'-'
    then digits_value s true
    else if c == b'+'
    then digits_value s false
    else digits_value (c ∷ s) false

-- `atoi`
unfoldable pub atoi : List ℕ → ℤ
unfolding signed_value
atoi s = signed_value (skip_space s)

-- The conversion to `unsigned short`.
abbrev pub to_ushort : ℤ → ℕ
to_ushort (pos n) = n % 65536
to_ushort (negsuc n) = 65535 - n % 65536

-- The conversion to `unsigned long`.
abbrev pub to_ulong : ℤ → ℕ
to_ulong (pos n) = n
to_ulong (negsuc n) = long_mod - suc n

-- The conversion to `unsigned int`.
abbrev pub to_uint : ℤ → ℕ
to_uint (pos n) = n % int_mod
to_uint (negsuc n) = int_mod - 1 - n % int_mod
