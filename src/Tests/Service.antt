-- ===== src/Tests/Service.antt =====
-- The machines of a replica.
use ece.Prelude.{◌≡◌, List, ok, refl, [], ◌∷◌}
use ece.Machines.{same_text, string_machine, find, Store}
use ece.Machines.Turns.{Event, begins, passes, ends, reads, finishes, Service, run_events}
use ece.Machines.Steps.{InOrder}
use ece.Machines.Writes.{run_events-InOrder}

abbrev pub nothing : Store string_machine
nothing = record {
  machines = [];
  queue_len = 0;
  bw_utilization = 0;
  mem_utilization = 0;
  request_queue = [];
}

abbrev pub one : Store string_machine
one = record nothing {
  machines = (97 ∷ [], 1 ∷ []) ∷ [];
  mem_utilization = 1;
  request_queue = (97 ∷ [], []) ∷ [];
}

abbrev service : Service string_machine
service = record { store = one; waiting = []; ending = 0 }

-- Two writes and a read, the second write before the first has ended.
abbrev two_writes : List Event
two_writes =
    begins (2 ∷ [])
    ∷ reads 1 7
    ∷ passes (2 ∷ [])
    ∷ begins (3 ∷ [])
    ∷ passes (3 ∷ [])
    ∷ ends
    ∷ finishes 1 7
    ∷ passes (3 ∷ [])
    ∷ ends
    ∷ []

run_events-InOrder_example :
    (d : Service string_machine) × (run_events string_machine (97 ∷ []) two_writes service ≡ ok d)
    × InOrder string_machine (97 ∷ []) ((2 ∷ []) ∷ (3 ∷ []) ∷ []) (1 ∷ []) d
unfolding find same_text
run_events-InOrder_example =
    run_events-InOrder string_machine (97 ∷ []) two_writes (1 ∷ []) service refl refl refl tt
      (tt, ((refl, tt), tt))
