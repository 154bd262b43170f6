-- ===== src/Copying/Refill.antt =====
-- A read fills up the copies of a machine.
use ece.Prelude.{ℕ, ◌<◌, ◌≤◌, ◌≡◌, some, [], ◌∷◌}
use ece.Map.{lookup}
use ece.Machines.{Text, find, Machine, Store, done}
use ece.Placement.{Stores}
use ece.Reading.{Choice, choose_reader}
use ece.Copying.Recovery.{IsTarget}

module _ (machine : Machine) (name : Text) (m : machine.State) (n b : ℕ)
    (small : b ≤ 2147483647) where
  module _ (id garbage client : ℕ) where
    -- What the choice comes to.
    record Chosen (c : Stores machine) : Type 0 where
      choice : Choice
      returns : choose_reader machine name garbage n c ≡ done choice
      few : choice.count < 3
      target : ℕ
      one : choice.copy_over ≡ target ∷ []
      lacks_it : IsTarget machine name m n b small c target
      reader :
          (s : Store machine) × (lookup choice.least_index c ≡ some s)
          × (find name s.machines ≡ some m)
