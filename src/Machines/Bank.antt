-- ===== src/Machines/Bank.antt =====
-- MP2/src/model/bankbalance.h: BankBalance. The two directions of `boost::lexical_cast` are
-- parameters; the one from a text throws where the text is not an int.
use ece.Prelude.{
  ℕ, ◌+◌, ◌%◌, ◌≡◌, refl, ap, ◌∙◌, Option, none, some, List, [], ◌∷◌, map, All, arith,
}
use ece.Int32.{word, IsInt}
use ece.Machines.{Text}

module _ (to_int : Text → Option ℕ) (to_text : ℕ → Text) where
  unfoldable pub make_balance : Text → Option ℕ
  make_balance balance_str = to_int balance_str

  unfoldable pub balance_text : ℕ → Text
  balance_text balance = to_text balance

  unfoldable pub deposit : ℕ → Option ℕ → Option (ℕ × Text)
  deposit balance none = none
  deposit balance (some n) = let sum = (balance + n) % word in some (sum, balance_text sum)

  -- `apply`
  unfoldable pub apply_balance : Text → ℕ → Option (ℕ × Text)
  apply_balance operation balance = deposit balance (to_int operation)

  abbrev pub and_then : (ℕ → Option ℕ) → Option (ℕ × Text) → Option ℕ
  and_then f none = none
  and_then f (some (balance, result)) = f balance

  -- The balance after some operations.
  abbrev pub balance_after : List Text → ℕ → Option ℕ
  balance_after [] balance = some balance
  balance_after (operation ∷ ops) balance =
      and_then (balance_after ops) (apply_balance operation balance)

  abbrev pub sum_of : List ℕ → ℕ
  sum_of [] = 0
  sum_of (n ∷ ns) = n + sum_of ns

  module _ (reads_back : (n : ℕ) → IsInt n → to_int (to_text n) ≡ some n) where
    balance_after-sum :
        (ns : List ℕ) (balance : ℕ)
        → IsInt balance
        → All IsInt ns
        → balance_after (map to_text ns) balance ≡ some ((balance + sum_of ns) % word)
    unfolding apply_balance deposit
    balance_after-sum [] balance b h = ap some (omega arith)
    balance_after-sum (n ∷ ns) balance b h =
        rw (reads_back n h.0)
          (balance_after-sum ns ((balance + n) % word) (omega arith) h.1 ∙ ap some (omega arith))

    -- After operations that are the texts of ints the balance is the first one with their sum, modulo
    -- 2 ^ 32, in whichever order they come; and a machine made of the text of that balance has it too.
    pub balance_after-copies :
        (ns : List ℕ) (balance : ℕ)
        → IsInt balance
        → All IsInt ns
        → (last : ℕ) × (last ≡ (balance + sum_of ns) % word)
          × (balance_after (map to_text ns) balance ≡ some last)
          × (make_balance (balance_text last) ≡ some last)
    unfolding make_balance balance_text
    balance_after-copies ns balance b h = (
      (balance + sum_of ns) % word,
      refl,
      balance_after-sum ns balance b h,
      reads_back ((balance + sum_of ns) % word) (omega arith),
    )
