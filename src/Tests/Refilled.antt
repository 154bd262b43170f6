-- ===== src/Tests/Refilled.antt =====
-- A read where replica 3 of four, which had the machine, is gone, and replica 0 runs without it.
use ece.Prelude.{Option, [], ◌∷◌}
use ece.Machines.{string_machine, Store}
use ece.Placement.{Stores}
use ece.Placement.Copies.{IsUniform}
use ece.Tests.Service.{nothing, one}

abbrev left : Stores string_machine
left = (0, nothing) ∷ (1, one) ∷ (2, one) ∷ []

abbrev Uniform : Option (Store string_machine) → Type 0
Uniform o = IsUniform string_machine (97 ∷ []) 1 (1 ∷ []) o
