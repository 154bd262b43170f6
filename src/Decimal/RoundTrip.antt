-- ===== src/Decimal/RoundTrip.antt =====
-- `istream >> int` reads back what `ostream << int` wrote.
use mathlib.Core.List.{append-nil}
use ece.Prelude.{
  ℕ, zero, suc, ◌+◌, ◌-◌, ◌*◌, ◌/◌, ◌%◌, ◌^◌, ◌≤◌, ◌<◌, ◌≡◌, refl, true, false, List, [], ◌∷◌, ◌++◌,
  append_assoc, arith, ltb, Bool-cases, inl, inr,
}
use ece.Int32.{word, IsInt}
use ece.Decimal.{digits, print_int, skip_spaces, read_digits, to_int, read_signed, parse_int}

read_digits-digit :
    (n d : ℕ) (rest : List ℕ)
    → d < 10
    → read_digits n ((48 + d) ∷ rest) ≡ read_digits (n * 10 + d) rest
unfolding read_digits
read_digits-digit n d rest h = ground arith

read_digits-digits :
    (k n : ℕ) (rest : List ℕ)
    → n < 10 ^ suc k
    → read_digits 0 (digits k n ++ rest) ≡ read_digits n rest
unfolding digits
read_digits-digits zero n rest h = ground (arith, read_digits-digit 0 (n % 10) rest)
read_digits-digits (suc k) n rest h = ground (
  arith,
  read_digits-digit 0 n rest,
  append_assoc (digits k (n / 10)) ((48 + n % 10) ∷ []) rest,
  read_digits-digits k (n / 10) ((48 + n % 10) ∷ rest) (omega arith),
  read_digits-digit (n / 10) (n % 10) rest,
)

-- A text that begins with a digit.
abbrev StartsWithDigit : List ℕ → Type 0
StartsWithDigit [] = ⊥
StartsWithDigit (c ∷ s) = (48 ≤ c) × (c ≤ 57)

StartsWithDigit-append : (s t : List ℕ) → StartsWithDigit s → StartsWithDigit (s ++ t)
StartsWithDigit-append [] t h = absurd h
StartsWithDigit-append (c ∷ s) t h = h

digits-StartsWithDigit : (k n : ℕ) → StartsWithDigit (digits k n)
unfolding digits
digits-StartsWithDigit zero n = omega arith
digits-StartsWithDigit (suc k) n = elim (Bool-cases (ltb n 10)) [
  | inl e ↦ rw e (ground arith)
  | inr e ↦ rw e (StartsWithDigit-append (digits k (n / 10)) _ (digits-StartsWithDigit k (n / 10)))
]

parse_unsigned : (s : List ℕ) → StartsWithDigit s → parse_int s ≡ to_int false (read_digits 0 s)
unfolding parse_int skip_spaces read_signed
parse_unsigned [] h = absurd h
parse_unsigned (c ∷ s) h = ground arith

parse_negative : (s : List ℕ) → parse_int (b'-' ∷ s) ≡ to_int true (read_digits 0 s)
unfolding parse_int skip_spaces read_signed
parse_negative s = refl

pub read-digits : (k n : ℕ) → n < 10 ^ suc k → read_digits 0 (digits k n) ≡ n
read-digits k n h = rw (append-nil, read_digits-nil) at (read_digits-digits k n [] h)
  where
    read_digits-nil : read_digits n [] ≡ n
    read_digits-nil = unfold read_digits in refl

-- Every int that is written in decimal is read back.
pub parse-print_int : (n : ℕ) → IsInt n → parse_int (print_int n) ≡ n
unfolding print_int to_int
parse-print_int n h = elim (Bool-cases (ltb n 2147483648)) [
  | inl e ↦
      rw (e, parse_unsigned (digits 9 n) (digits-StartsWithDigit 9 n))
        (ground (arith, read-digits 9 n))
  | inr e ↦ rw (e, parse_negative (digits 9 (word - n))) (ground (arith, read-digits 9 (word - n)))
]
