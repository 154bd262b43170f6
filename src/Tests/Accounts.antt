-- ===== src/Tests/Accounts.antt =====
-- A bank balance, and the group file of three processes.
use ece.Prelude.{ℕ, ◌≡◌, ap, Option, some, [], ◌∷◌, map, arith, ok}
use ece.Decimal.{print_int, parse_int}
use ece.Decimal.RoundTrip.{parse-print_int}
use ece.Machines.{Text}
use ece.Machines.Bank.{make_balance, balance_text, balance_after, balance_after-copies}
use ece.Unicast.{empty_group, new_members}
use ece.Unicast.GroupFile.{read_group, group_bytes, read_group-group_bytes}

abbrev to_number : Text → Option ℕ
to_number t = some (parse_int t)

balance_after-copies_example :
    (last : ℕ) × (last ≡ 5)
    × (balance_after to_number print_int (map print_int (7 ∷ 4294967293 ∷ [])) 1 ≡ some last)
    × (make_balance to_number print_int (balance_text to_number print_int last) ≡ some last)
balance_after-copies_example =
    balance_after-copies to_number print_int (λ n h. ap some (parse-print_int n h))
      (7 ∷ 4294967293 ∷ []) 1 (omega arith) (omega arith, (omega arith, tt))

read_group-group_bytes_example :
    read_group 4 (group_bytes (4001 ∷ 4002 ∷ 4003 ∷ [])) [] empty_group
    ≡ ok (new_members (4001 ∷ 4002 ∷ 4003 ∷ []) empty_group)
read_group-group_bytes_example =
    read_group-group_bytes 4 (4001 ∷ 4002 ∷ 4003 ∷ []) [] empty_group
      (omega arith, (omega arith, (omega arith, tt))) (omega arith)
