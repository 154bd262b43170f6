-- ===== src/Tests/Links.antt =====
-- The connections of a process, and a read where a fourth replica runs without the machine.
use ece.Prelude.{◌≡◌, refl, true, false, none, some, [], ◌∷◌, arith, fault, over_read}
use ece.Map.{lookup}
use ece.Machines.{string_machine, find, same_text, state_exists}
use ece.Placement.{Stores}
use ece.Connections.{Clients, access, connect, client}
use ece.Connections.Cache.{after_calls, access-refused}
use ece.Copying.{prepare_get_state}
use ece.Copying.Missing.{prepare_get_state-over_read}
use ece.Tests.Service.{nothing, one}

abbrev two_clients : Clients
two_clients = none ∷ none ∷ []

access-refused_example :
    (access true 1 (after_calls ((true, 0) ∷ (true, 1) ∷ []) (access false 1 two_clients).0)).1
    ≡ client false
unfolding access connect
access-refused_example = access-refused false true 1 ((true, 0) ∷ (true, 1) ∷ []) two_clients refl

abbrev four_stores : Stores string_machine
four_stores = (0, one) ∷ (1, one) ∷ (2, one) ∷ (3, nothing) ∷ []

prepare_get_state-over_read_example :
    prepare_get_state string_machine 4 2 (97 ∷ []) 7 5 four_stores (some one) ≡ fault over_read
unfolding lookup find same_text state_exists
prepare_get_state-over_read_example =
    prepare_get_state-over_read string_machine (97 ∷ []) 4 2 7 5 one four_stores refl refl
      (omega arith) (omega arith)
