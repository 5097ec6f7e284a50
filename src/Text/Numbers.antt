-- ===== src/Text/Numbers.antt =====
-- `%zu` printed and read again.
use c_exercises.Base.{
  ℕ, zero, suc, ◌+◌, ◌-◌, ◌*◌, ◌/◌, ◌%◌, ◌≤◌, ◌<◌, ◌≡◌, refl, ◌∙◌, inl, inr, true, false, some,
  List, [], ◌∷◌, ◌++◌, arith, ◌==◌, ltb, Bool-cases, length, ltb→lt, ltb→le, lt→ltb,
}
use c_exercises.Text.{
  is_space, is_digit, read_digits, scan_size, digits_onto, show_size, size_mod, lacks, saturate,
  c_string,
}

digit : (d : ℕ) → d < 10 → is_digit (48 + d) ≡ true
digit d h = ground arith

-- Reading the digits of `n` and then `acc` is reading `acc` behind the value `n`.
read_digits-digits_onto :
    (fuel n : ℕ) (acc : List ℕ)
    → n < fuel
    → read_digits 0 (digits_onto fuel n acc) ≡ read_digits n acc
unfolding read_digits digits_onto
read_digits-digits_onto zero n acc h = absurd (omega arith)
read_digits-digits_onto (suc fuel) n acc h = elim (Bool-cases (ltb n 10)) [
  | inl small ↦
      let one : 0 * 10 + (48 + n - 48) ≡ n = omega arith in
      rw (small, digit n (ltb→lt n 10 small), one)
  | inr large ↦
      let ten : n / 10 * 10 + (48 + n % 10 - 48) ≡ n = omega arith in
      let big : 10 ≤ n = ltb→le n 10 large in
      rw (
        large,
        read_digits-digits_onto fuel (n / 10) ((48 + n % 10) ∷ acc) (omega arith),
        digit (n % 10) (omega arith),
        ten,
      )
]

-- The printed number starts with a digit.
digits_onto-head :
    (fuel n : ℕ) (acc : List ℕ)
    → n < fuel
    → (c : ℕ) × (s : List ℕ) × (digits_onto fuel n acc ≡ c ∷ s) × (is_digit c ≡ true)
unfolding digits_onto
digits_onto-head zero n acc h = absurd (omega arith)
digits_onto-head (suc fuel) n acc h = elim (Bool-cases (ltb n 10)) [
  | inl small ↦ (48 + n, acc, rw small, digit n (ltb→lt n 10 small))
  | inr large ↦
      let big : 10 ≤ n = ltb→le n 10 large in
      let (c, s, e, d) = digits_onto-head fuel (n / 10) ((48 + n % 10) ∷ acc) (omega arith) in
      (c, s, rw large e, d)
]

digits_onto-append :
    (fuel n : ℕ) (acc more : List ℕ)
    → digits_onto fuel n acc ++ more ≡ digits_onto fuel n (acc ++ more)
unfolding digits_onto
digits_onto-append zero n acc more = refl
digits_onto-append (suc fuel) n acc more = elim (Bool-cases (ltb n 10)) [
  | inl small ↦ rw small
  | inr large ↦ rw large (digits_onto-append fuel (n / 10) ((48 + n % 10) ∷ acc) more)
]

-- The power of ten with exponent k + 1.
abbrev ten_pow : ℕ → ℕ
ten_pow zero = 10
ten_pow (suc k) = 10 * ten_pow k

length-digits_onto :
    (k fuel n : ℕ) (acc : List ℕ)
    → n < ten_pow k
    → length (digits_onto fuel n acc) ≤ length acc + suc k
unfolding digits_onto
length-digits_onto k zero n acc h = omega arith
length-digits_onto zero (suc fuel) n acc h =
    let small : ltb n 10 ≡ true = lt→ltb n 10 (omega arith) in rw small (omega arith)
length-digits_onto (suc k) (suc fuel) n acc h = elim (Bool-cases (ltb n 10)) [
  | inl small ↦ rw small (omega arith)
  | inr large ↦
      rw large
        (omega (arith, length-digits_onto k fuel (n / 10) ((48 + n % 10) ∷ acc) (omega arith)))
]

-- A size prints with at most twenty digits.
pub length-show_size : (n : ℕ) → n < size_mod → length (show_size n) ≤ 20
unfolding show_size
length-show_size n h = omega (arith, length-digits_onto 19 (suc n) n [] (omega arith))

-- A number below a million prints with at most six.
pub length-show_size_six : (n : ℕ) → n < 1000000 → length (show_size n) ≤ 6
unfolding show_size
length-show_size_six n h = omega (arith, length-digits_onto 5 (suc n) n [] (omega arith))

-- A printed number is read back.
pub read_digits-show_size : (n : ℕ) → read_digits 0 (show_size n) ≡ n
unfolding show_size read_digits
read_digits-show_size n = read_digits-digits_onto (suc n) n [] (omega arith)

digit-ne : (c d : ℕ) → is_digit c ≡ false → d < 10 → (48 + d == c) ≡ false
digit-ne c d no_digit h = ground arith

lacks-digits_onto :
    (c fuel n : ℕ) (acc : List ℕ)
    → is_digit c ≡ false
    → lacks c acc ≡ true
    → lacks c (digits_onto fuel n acc) ≡ true
unfolding digits_onto
lacks-digits_onto c zero n acc other h = h
lacks-digits_onto c (suc fuel) n acc other h = elim (Bool-cases (ltb n 10)) [
  | inl small ↦ rw (small, digit-ne c n other (ltb→lt n 10 small)) h
  | inr large ↦ rw large (
      lacks-digits_onto c fuel (n / 10) ((48 + n % 10) ∷ acc) other
        (rw (digit-ne c (n % 10) other (omega arith)) h))
]

-- A printed number holds no byte but digits.
pub lacks-show_size : (c n : ℕ) → is_digit c ≡ false → lacks c (show_size n) ≡ true
unfolding show_size
lacks-show_size c n other = lacks-digits_onto c (suc n) n [] other refl

pub lacks-append :
    (c : ℕ) (xs ys : List ℕ) → lacks c xs ≡ true → lacks c ys ≡ true → lacks c (xs ++ ys) ≡ true
lacks-append c [] ys hx hy = hy
lacks-append c (x ∷ xs) ys hx hy = ground (arith, lacks-append c xs ys)

-- Without a NUL the whole buffer is the string.
pub c_string-lacks : (s : List ℕ) → lacks 0 s ≡ true → c_string s ≡ s
c_string-lacks [] h = refl
c_string-lacks (c ∷ s) h = ground (arith, c_string-lacks s)

scan_digit :
    (c : ℕ) (s : List ℕ)
    → is_digit c ≡ true
    → scan_size (32 ∷ c ∷ s) ≡ some (saturate (read_digits 0 (c ∷ s)))
unfolding scan_size
scan_digit c s d =
    let space : is_space c ≡ false = ground arith in
    let minus : (c == b'-') ≡ false = ground arith in
    let plus : (c == b'+') ≡ false = ground arith in rw (space, minus, plus, d) refl

read_back :
    (n c : ℕ) (rest s : List ℕ)
    → n < size_mod
    → is_digit c ≡ false
    → digits_onto (suc n) n (c ∷ rest) ≡ s
    → some (saturate (read_digits 0 s)) ≡ some n
unfolding read_digits
read_back n c rest s h stop e =
    rw (← e, read_digits-digits_onto (suc n) n (c ∷ rest) (omega arith), stop, lt→ltb n size_mod h)

-- A size printed behind a space and before a byte that is no digit is read back.
pub scan_size-show_size :
    (n c : ℕ) (rest : List ℕ)
    → n < size_mod
    → is_digit c ≡ false
    → scan_size (32 ∷ show_size n ++ c ∷ rest) ≡ some n
unfolding show_size
scan_size-show_size n c rest h stop =
    let (d, s, e, is) = digits_onto-head (suc n) n (c ∷ rest) (omega arith) in
    rw (digits_onto-append (suc n) n [] (c ∷ rest), e)
      (scan_digit d s is ∙ read_back n c rest (d ∷ s) h stop e)
