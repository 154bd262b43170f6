-- ===== src/FrontEnd/Lifetime.antt =====
-- A machine from its creation by a front end on.
use ece.Prelude.{==_self, Option, some, ℕ, suc, ◌+◌, ◌≤◌, ◌≡◌, refl, true, none, List, arith, ok}
use ece.Map.{lookup, insert}
use ece.Machines.{Store, Text, Machine}
use ece.Placement.{Stores, create_copies}
use ece.Placement.Copies.{runs_in, Smaller}
use ece.Placement.Fresh.{IsWithout, create_copies-fresh}
use ece.Placement.Least.{holders, lacking}
use ece.FrontEnd.{FrontEnd, System, create_machine, create_at}
use ece.FrontEnd.Search.{IsLed, knows, known_by_leader, find_leader-finds}
use ece.FrontEnd.Calls.{Call, spares, how_many, Service, answers_of, client, run_calls}
use ece.FrontEnd.Refinement.{client-idle, run_calls-refines}

create_at-leader :
    (machine : Machine) (name initial : Text) (n leader : ℕ) (c : Stores machine)
    (o : Option (Store machine))
    → runs_in machine name o ≡ true
    → create_at machine n name leader leader initial c o
      ≡ create_copies machine n leader name initial c
unfolding create_at
create_at-leader machine name initial n leader c none h = cc
create_at-leader machine name initial n leader c (some s) h = rw (==_self leader) refl

module _ (machine : Machine) (name : Text) (n leader b : ℕ) where
  -- Three of the n replicas run and agree on a leader, which is one of them. None of them has a
  -- machine of the name or a request for it, no front end is looking for a leader, and the counters
  -- are small.
  pub record Starts (s : Service machine) : Type 0 where
    pub led : IsLed n leader s.system.cluster
    pub leads : runs_in machine name (lookup leader s.system.stores) ≡ true
    pub without : (k : ℕ) → IsWithout machine name b (lookup k s.system.stores)
    pub small : Smaller machine name 2147483644 s.system.stores
    pub none_has : holders machine name n 0 s.system.stores ≡ 0
    pub three : lacking machine name n 0 s.system.stores ≡ 3
    pub idle : (k : ℕ) → (id : ℕ) × (known : ℕ) × (client machine k s.clients ≡ knows id known)

  module _ (sleep : System machine → System machine) (fuel : ℕ) where
    -- Where just three of at most 32768 replicas run and agree on a leader, which is one of them,
    -- none of them has a machine of the name or a request for it, and no front end is looking for a
    -- leader: a front end creates the machine, and what any front ends then write and read of it,
    -- one after the other, while replicas other than the leader may crash, is answered as by one
    -- machine that was made in the initial state. (The counters of the replicas are away from the
    -- largest int.)
    pub create_machine-run_calls :
        (initial : Text) (k : ℕ) (es : List Call) (s : Service machine)
        → Starts s
        → b + how_many es ≤ 2147483647
        → spares leader es ≡ true
        → (w : System machine) × (f : FrontEnd) × (t : Service machine) × (create_machine machine
              sleep
              (suc fuel)
              n
              name
              initial
              s.system
              (client machine k s.clients)
            ≡ ok (w, f, none))
          × (run_calls machine sleep
                (suc fuel)
                n
                name
                es
                (record { system = w; clients = insert k f s.clients })
              ≡ ok (t, answers_of machine es (machine.make initial)))
    unfolding create_machine
    create_machine-run_calls initial k es s h load spared =
        let (id, known, e) = h.idle k in
        let (d, made, r) =
          create_copies-fresh machine name initial n leader b s.system.stores
            (omega (arith, h.led.few)) h.small h.led.below h.leads h.without h.none_has h.three in
        let w = record s.system { stores = d } in
        let f = knows id leader in
        let (t, run) =
          run_calls-refines machine name n leader sleep fuel es b (machine.make initial)
            (record { system = w; clients = insert k f s.clients }) load spared
            (record {
              led = h.led;
              replicated = r;
              idle = client-idle machine name n leader k id s.clients h.idle;
            }) in
        (
          w,
          f,
          t,
          rw
              (
                e,
                find_leader-finds machine n leader sleep fuel id known s.system h.led,
                known_by_leader machine n leader s.system h.led,
                create_at-leader machine name initial n leader s.system.stores
                    (lookup leader s.system.stores) h.leads,
                made,
              )
              refl,
          run,
        )
