-- ===== src/Tests/Reading.antt =====
-- The choice of a reader, and a removal, on two replicas.
use ece.Prelude.{ℕ, ◌<◌, refl, [], ◌∷◌, arith}
use ece.Map.{lookup, insert}
use ece.Int32.{slt, inc}
use ece.Machines.{Reply, done, throws, string_machine, find, erase, same_text, state_exists, remove}
use ece.Placement.{Stores}
use ece.Reading.{
  Choice, no_choice, consider, consider_loop, choose_reader, remove_reply, remove_at, remove_loop,
  after_own, remove_all,
}
use ece.Reading.Balance.{IsBusier, IsReader, choose_reader-IsReader}
use ece.Reading.Removal.{IsGone, remove_all-IsGone}
use ece.Replica.{to_int16}
use ece.Tests.Service.{one}

abbrev two : Stores string_machine
two = (0, record one { bw_utilization = 9 }) ∷ (1, record one { bw_utilization = 4 }) ∷ []

abbrev or_default : {A : Type 0} → A → Reply A → A
or_default d (done a) = a
or_default d (throws e) = d

abbrev choice : Choice
choice = or_default (no_choice 7) (choose_reader string_machine (97 ∷ []) 7 2 two)

choose_reader-IsReader_example :
    IsReader string_machine (97 ∷ []) choice.least (lookup choice.least_index two)
    × ((k : ℕ) → k < 2 → IsBusier string_machine (97 ∷ []) choice.least (lookup k two))
unfolding choose_reader consider_loop consider lookup state_exists find same_text slt to_int16
choose_reader-IsReader_example = choose_reader-IsReader string_machine (97 ∷ []) 7 2 two choice refl

abbrev emptied : Stores string_machine
emptied = or_default two (remove_all string_machine (97 ∷ []) 2 1 one two)

remove_all-IsGone_example : IsGone string_machine (97 ∷ []) 0 emptied
unfolding remove_all after_own remove_loop remove_at remove_reply remove state_exists find erase
    same_text lookup insert slt inc
remove_all-IsGone_example =
    remove_all-IsGone string_machine (97 ∷ []) 2 1 0 one two emptied (omega arith) refl
