-- ===== src/Tests/Front.antt =====
-- A front end and three replicas, one of which crashes.
use ece.Prelude.{fault, undeclared_error, ℕ, ◌≡◌, refl, false, List, [], ◌∷◌, arith, ok}
use ece.Map.{lookup}
use ece.Machines.{string_machine, find, same_text, done}
use ece.Replica.{minus_one, Replica, Cluster}
use ece.Placement.{Stores}
use ece.Writing.{apply_all}
use ece.Writing.Agreement.{IsReplicated, apply_all-agrees}
use ece.FrontEnd.{find_leader, ask_system, make_front_end}
use ece.FrontEnd.Search.{IsLed, knows, find_leader-finds}
use ece.FrontEnd.Calls.{Call, writes, reads, crashes, Service, Serves, run_calls}
use ece.FrontEnd.Refinement.{run_calls-refines}
use ece.Tests.Service.{nothing, one}
use ece.Tests.{or_else}
use ece.Prelude.{Option, none}
use ece.Int32.{slt, inc}
use ece.Map.{insert}
use ece.Replica.{get_leader, running, check_leader, to_int16}
use ece.Machines.{erase, remove, state_exists, ErrorType, not_found, throws}
use ece.Reading.{remove_all, after_own, remove_loop, remove_at, remove_reply}
use ece.FrontEnd.{
  System, FrontEnd, create_machine, remove_machine, stub_apply, stub_get_state, check_known,
  after_known, replace_leader, ask_replica, remove_from, removed,
}
use ece.FrontEnd.Calls.{client}
use ece.FrontEnd.Lifetime.{Starts, create_machine-run_calls}
use ece.FrontEnd.Removed.{remove_machine-throws}

abbrev member : ℕ → Replica
member id = record {
  id = id;
  leader = 2;
  proposal_number = id;
  highest_proposal_number = 5;
  accepted_proposal_number = 5;
  accepted_proposal_value = 2;
  election_in_progress = false;
}

abbrev led : Cluster
led = (0, member 0) ∷ (1, member 1) ∷ (2, member 2) ∷ []

abbrev same_stores : Stores string_machine
same_stores = (0, one) ∷ (1, one) ∷ (2, one) ∷ []

led-IsLed : IsLed 3 2 led
unfolding lookup
led-IsLed = record {
  below = omega arith;
  few = omega arith;
  leads = (member 2, refl);
  known = λ k. ground arith;
}

same_stores-IsReplicated : IsReplicated string_machine (97 ∷ []) 3 2 9 (1 ∷ []) same_stores
unfolding lookup find same_text
same_stores-IsReplicated = record {
  below = omega arith;
  leads = (one, refl);
  agree = λ k l. ground arith;
}

abbrev start : Service string_machine
start = record { system = record { cluster = led; stores = same_stores }; clients = [] }

start-Serves : Serves string_machine (97 ∷ []) 3 2 9 (1 ∷ []) start
unfolding lookup make_front_end
start-Serves = record {
  led = led-IsLed;
  replicated = same_stores-IsReplicated;
  idle = λ k. (k, minus_one, refl);
}

abbrev script : List Call
script =
    writes 0 (5 ∷ [])
    ∷ reads 0 7
    ∷ crashes 0
    ∷ reads 1 0
    ∷ writes 1 (6 ∷ [])
    ∷ crashes 1
    ∷ reads 0 9
    ∷ []

run_calls-refines_example :
    (t : Service string_machine) × (run_calls string_machine (λ w. w) 1 3 (97 ∷ []) script start
      ≡ ok (t, done (5 ∷ []) ∷ done (5 ∷ []) ∷ done (5 ∷ []) ∷ done (6 ∷ []) ∷ done (6 ∷ []) ∷ []))
run_calls-refines_example =
    run_calls-refines string_machine (97 ∷ []) 3 2 (λ w. w) 0 script 9 (1 ∷ []) start (omega arith)
      refl start-Serves

apply_all-agrees_example :
    (d : Stores string_machine) × (apply_all string_machine
        (97 ∷ [])
        (5 ∷ [])
        3
        2
        same_stores
        (lookup 2 same_stores)
      ≡ ok (d, done (5 ∷ [])))
    × IsReplicated string_machine (97 ∷ []) 3 2 10 (5 ∷ []) d
apply_all-agrees_example =
    apply_all-agrees string_machine (97 ∷ []) 3 2 9 (5 ∷ []) (1 ∷ []) same_stores (omega arith)
      same_stores-IsReplicated

find_leader-finds_example :
    find_leader (ask_system string_machine 3) (λ w. w) 1 3 start.system (knows 4 minus_one)
    ≡ ok (start.system, knows 4 2)
find_leader-finds_example =
    find_leader-finds string_machine 3 2 (λ w. w) 0 4 minus_one start.system led-IsLed

abbrev empty_stores : Stores string_machine
empty_stores = (0, nothing) ∷ (1, nothing) ∷ (2, nothing) ∷ []

abbrev unused : Service string_machine
unused = record start { system = record { cluster = led; stores = empty_stores } }

unused-Starts : Starts string_machine (97 ∷ []) 3 2 9 unused
unfolding lookup find same_text state_exists make_front_end
unused-Starts = record {
  led = led-IsLed;
  leads = refl;
  without = λ k. ground arith;
  small = λ k. ground arith;
  none_has = refl;
  three = refl;
  idle = λ k. (k, minus_one, refl);
}

create_machine-run_calls_example :
    (w : System string_machine) × (f : FrontEnd) × (t : Service string_machine) × (create_machine
        string_machine
        (λ w. w)
        1
        3
        (97 ∷ [])
        (4 ∷ [])
        unused.system
        (client string_machine 7 [])
      ≡ ok (w, f, none))
    × (run_calls string_machine
          (λ w. w)
          1
          3
          (97 ∷ [])
          (reads 1 0 ∷ crashes 0 ∷ writes 7 (5 ∷ []) ∷ reads 2 0 ∷ [])
          (record { system = w; clients = insert 7 f [] })
        ≡ ok (t, done (4 ∷ []) ∷ done (5 ∷ []) ∷ done (5 ∷ []) ∷ []))
create_machine-run_calls_example =
    create_machine-run_calls string_machine (97 ∷ []) 3 2 9 (λ w. w) 0 (4 ∷ []) 7
      (reads 1 0 ∷ crashes 0 ∷ writes 7 (5 ∷ []) ∷ reads 2 0 ∷ []) unused unused-Starts
      (omega arith) refl

abbrev cleared : System string_machine × FrontEnd × Option ErrorType
cleared =
    or_else (start.system, knows 4 2, none)
      (remove_machine string_machine (λ w. w) 1 3 (97 ∷ []) start.system (knows 4 2))

remove_machine-throws_example :
    (stub_apply string_machine (λ w. w) 1 3 (97 ∷ []) (5 ∷ []) cleared.0 (knows 6 minus_one)
      ≡ ok (cleared.0, knows 6 2, throws not_found))
    × (stub_get_state string_machine (λ w. w) 1 3 (97 ∷ []) 7 cleared.0 (knows 6 minus_one)
        ≡ fault undeclared_error)
unfolding remove_machine find_leader check_known after_known replace_leader ask_system ask_replica
    get_leader running check_leader to_int16 remove_from removed remove_all after_own remove_loop
    remove_at remove_reply remove state_exists find erase same_text lookup insert slt inc
remove_machine-throws_example =
    remove_machine-throws string_machine (97 ∷ []) 3 2 (λ w. w) 0 (5 ∷ []) 7 4 2 6 minus_one
      start.system cleared.0 cleared.1 led-IsLed refl
