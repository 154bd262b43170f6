-- ===== src/Decimal.antt =====
-- Decimal text of an `int`: `ostream << int` and `istream >> int`, which MP1/mcast.cc uses to name a
-- sender in a retransmission request. Text is a list of bytes.
pub mod RoundTrip
use ece.Prelude.{
  ℕ, zero, suc, ◌+◌, ◌-◌, ◌*◌, ◌/◌, ◌%◌, Bool, true, false, ◌&&◌, ◌||◌, List, [], ◌∷◌, ◌++◌, ltb,
  leb, ◌==◌, if◌then◌else◌,
}
use ece.Int32.{word}

-- The digits of n, where n has at most k + 1 of them. An int has at most ten.
unfoldable pub digits : ℕ → ℕ → List ℕ
digits zero n = (48 + n % 10) ∷ []
digits (suc k) n =
    let front = digits k (n / 10) in
    if ltb n 10 then (48 + n) ∷ [] else front ++ ((48 + n % 10) ∷ [])

-- `ss << n`
unfoldable pub print_int : ℕ → List ℕ
print_int n = if ltb n 2147483648 then digits 9 n else b'-' ∷ digits 9 (word - n)

abbrev pub is_space : ℕ → Bool
is_space c = (leb 9 c && leb c 13) || c == 32

unfoldable pub skip_spaces : List ℕ → List ℕ
skip_spaces [] = []
skip_spaces (c ∷ s) = if is_space c then skip_spaces s else c ∷ s

abbrev pub is_digit : ℕ → Bool
is_digit c = leb 48 c && leb c 57

-- The number that the digits at the front of the text add to the number read so far.
unfoldable pub read_digits : ℕ → List ℕ → ℕ
read_digits n [] = n
read_digits n (c ∷ s) = if is_digit c then read_digits (n * 10 + (c - 48)) s else n

-- A number that no int holds is read as the nearest int.
unfoldable pub to_int : Bool → ℕ → ℕ
to_int false n = if ltb n 2147483648 then n else 2147483647
to_int true n = if n == 0 then 0 else if leb n 2147483648 then word - n else 2147483648

unfoldable pub read_signed : List ℕ → ℕ
read_signed [] = 0
read_signed (c ∷ s) =
    if c == b'-'
    then to_int true (read_digits 0 s)
    else to_int false (read_digits 0 (if c == b'+' then s else c ∷ s))

-- `ss >> n`; where the text has no number n becomes 0, as since C++11.
unfoldable pub parse_int : List ℕ → ℕ
parse_int s = read_signed (skip_spaces s)
