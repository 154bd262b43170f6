-- ===== src/Tests/Copies.antt =====
-- The leader's `create` on three replicas, and on two.
use ece.Prelude.{refl, ◌≡◌, none, [], ◌∷◌, arith, ok, fault, not_running}
use ece.Map.{lookup}
use ece.Machines.{string_machine, find, state_exists}
use ece.Placement.{Stores, create_copies}
use ece.Placement.Least.{holders}
use ece.Placement.Copies.{Smaller}
use ece.Placement.Create.{create_copies-three, create_copies-few}
use ece.Tests.Service.{nothing}

abbrev three_stores : Stores string_machine
three_stores = (0, nothing) ∷ (1, nothing) ∷ (2, nothing) ∷ []

abbrev two_stores : Stores string_machine
two_stores = (0, nothing) ∷ (1, nothing) ∷ []

three_stores-Smaller : Smaller string_machine (97 ∷ []) 2147483644 three_stores
unfolding lookup
three_stores-Smaller k = ground arith

two_stores-Smaller : Smaller string_machine (97 ∷ []) 2147483644 two_stores
unfolding lookup
two_stores-Smaller k = ground arith

create_copies-three_example :
    (d : Stores string_machine) × (create_copies string_machine 3 2 (97 ∷ []) (1 ∷ []) three_stores
      ≡ ok (d, none))
    × (holders string_machine (97 ∷ []) 3 0 d ≡ 3)
unfolding lookup state_exists find
create_copies-three_example =
    create_copies-three string_machine (97 ∷ []) (1 ∷ []) 3 2 three_stores (omega arith)
      three_stores-Smaller (omega arith) (omega arith)

create_copies-few_example :
    create_copies string_machine 3 1 (97 ∷ []) (1 ∷ []) two_stores ≡ fault not_running
unfolding lookup state_exists find
create_copies-few_example =
    create_copies-few string_machine (97 ∷ []) (1 ∷ []) 3 1 two_stores (omega arith)
      two_stores-Smaller refl (omega arith)
