-- ===== src/Int32.antt =====
-- The C++ `int`: a 32-bit two's complement word, held as its bit pattern below 2 ^ 32. The order is
-- the signed one. `++` and `-` wrap around, which is what the machine does where C++ leaves the
-- overflow undefined.
use ece.Prelude.{ℕ, ◌+◌, ◌-◌, ◌%◌, ◌<◌, ◌≡◌, ◌≢◌, Bool, true, false, arith, ltb, leb, if◌then◌else◌}

abbrev pub word : ℕ
word = 4294967296

abbrev pub IsInt : ℕ → Type 0
IsInt a = a < word

-- The bit patterns of the integers that are not negative.
abbrev pub IsNatural : ℕ → Type 0
IsNatural a = a < 2147483648

-- The place of a pattern in the signed order.
abbrev pub key : ℕ → ℕ
key a = (a + 2147483648) % word

-- `a < b` and `a <= b` on ints.
unfoldable pub slt : ℕ → ℕ → Bool
slt a b = ltb (key a) (key b)

unfoldable pub sle : ℕ → ℕ → Bool
sle a b = leb (key a) (key b)

-- `a + 1`, `a - b` and `max(a, b)` on ints.
unfoldable pub inc : ℕ → ℕ
inc a = (a + 1) % word

unfoldable pub sub : ℕ → ℕ → ℕ
sub a b = (a + word - b) % word

unfoldable pub smax : ℕ → ℕ → ℕ
unfolding slt
smax a b = if slt a b then b else a

pub slt_irrefl : (a : ℕ) → slt a a ≡ false
unfolding slt
slt_irrefl a = ground arith

pub slt_asymm : (a b : ℕ) → slt a b ≡ true → slt b a ≡ false
unfolding slt
slt_asymm a b h = ground arith

pub slt_trans : (a b c : ℕ) → slt a b ≡ true → slt b c ≡ true → slt a c ≡ true
unfolding slt
slt_trans a b c h k = ground arith

pub slt-sle_trans : (a b c : ℕ) → slt a b ≡ true → sle b c ≡ true → slt a c ≡ true
unfolding slt sle
slt-sle_trans a b c h k = ground arith

pub slt-ne : (a b : ℕ) → slt a b ≡ true → a ≢ b
unfolding slt
slt-ne a b h = λ e. ground arith

pub sle-not-slt : (a b : ℕ) → sle a b ≡ true → slt b a ≡ false
unfolding slt sle
sle-not-slt a b h = ground arith

-- On naturals the signed order is the order of the numbers.
pub slt_natural : (a b : ℕ) → IsNatural a → IsNatural b → slt a b ≡ ltb a b
unfolding slt
slt_natural a b ha hb = ground arith

pub sle_natural : (a b : ℕ) → IsNatural a → IsNatural b → sle a b ≡ leb a b
unfolding sle
sle_natural a b ha hb = ground arith

pub inc_natural : (a : ℕ) → a + 1 < word → inc a ≡ a + 1
unfolding inc
inc_natural a h = omega arith

pub sle-smax_left : (a b : ℕ) → sle a (smax a b) ≡ true
unfolding smax sle
sle-smax_left a b = ground arith

pub sle-smax_right : (a b : ℕ) → sle b (smax a b) ≡ true
unfolding smax sle
sle-smax_right a b = ground arith

pub sle_refl : (a : ℕ) → sle a a ≡ true
unfolding sle
sle_refl a = ground arith

pub sle_trans : (a b c : ℕ) → sle a b ≡ true → sle b c ≡ true → sle a c ≡ true
unfolding sle
sle_trans a b c h k = ground arith

-- Two different ints are ordered one way or the other.
pub slt_total : (a b : ℕ) → IsInt a → IsInt b → a ≢ b → slt a b ≡ false → slt b a ≡ true
unfolding slt
slt_total a b ha hb n h = ground arith

pub not_slt_trans : (a b c : ℕ) → slt b a ≡ false → slt c b ≡ false → slt c a ≡ false
unfolding slt
not_slt_trans a b c h k = ground arith

pub slt_not_slt_trans : (a b c : ℕ) → slt a b ≡ true → slt c b ≡ false → slt a c ≡ true
unfolding slt
slt_not_slt_trans a b c h k = ground arith
