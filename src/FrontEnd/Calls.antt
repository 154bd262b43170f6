-- ===== src/FrontEnd/Calls.antt =====
-- The service that the front ends show to their clients, and the one machine that it looks like.
use ece.Prelude.{
  ℕ, suc, ◌+◌, ◌≤◌, ◌≡◌, refl, Bool, true, ◌&&◌, not, none, List, [], ◌∷◌, arith, ◌==◌, Option,
  some, ==_self, if◌then◌else◌, Result, ok, ◌>>=◌,
}
use ece.Map.{Map, lookup, insert, or_default}
use ece.Machines.{Store, Text, Machine, Reply, done}
use ece.Placement.{Stores}
use ece.Replica.{to_int16}
use ece.FrontEnd.{FrontEnd, make_front_end, System, stub_apply, declared, read_from, stub_get_state}
use ece.FrontEnd.Search.{IsLed, knows, known_by_leader, find_leader-finds}
use ece.Writing.{apply_all, apply_at}
use ece.Copying.{prepare_get_state, prepare_at}
use ece.Writing.Agreement.{IsReplicated, apply_all-agrees}
use ece.Copying.Agreement.{prepare-Prepared, get-Agrees}

-- A client writes or reads through its front end, or a replica crashes. What `bmi` is at first may
-- be different at each read.
pub data Call : Type 0 where
  writes : ℕ → Text → Call
  reads : ℕ → ℕ → Call
  crashes : ℕ → Call

-- The map without a key.
abbrev pub without {ℓ} : {V : Type ℓ} → ℕ → Map V → Map V
without k [] = []
without k ((j, v) ∷ m) = if j == k then without k m else (j, v) ∷ without k m

pub lookup-without {ℓ} :
    {V : Type ℓ} (k i : ℕ) (m : Map V)
    → lookup i (without k m) ≡ (if k == i then none else lookup i m)
unfolding lookup
lookup-without k i [] = ground arith
lookup-without k i ((j, v) ∷ m) = ground (arith, lookup-without k i m)

-- No crash is one of replica i.
abbrev pub spares : ℕ → List Call → Bool
spares i [] = true
spares i (writes k operation ∷ es) = spares i es
spares i (reads k garbage ∷ es) = spares i es
spares i (crashes k ∷ es) = not (k == i) && spares i es

-- How many of them are not crashes.
abbrev pub how_many : List Call → ℕ
how_many [] = 0
how_many (writes k operation ∷ es) = suc (how_many es)
how_many (reads k garbage ∷ es) = suc (how_many es)
how_many (crashes k ∷ es) = how_many es

module _ (machine : Machine) where
  -- The replicas, and the front ends by their numbers.
  pub record Service : Type 0 where
    pub system : System machine
    pub clients : Map FrontEnd

  -- What one machine answers.
  abbrev pub answers_of : List Call → machine.State → List (Reply Text)
  answers_of [] m = []
  answers_of (writes k operation ∷ es) m =
      done (machine.apply operation m).1 ∷ answers_of es (machine.apply operation m).0
  answers_of (reads k garbage ∷ es) m = done (machine.get_state m) ∷ answers_of es m
  answers_of (crashes k ∷ es) m = answers_of es m

  abbrev pub state_after : List Call → machine.State → machine.State
  state_after [] m = m
  state_after (writes k operation ∷ es) m = state_after es (machine.apply operation m).0
  state_after (reads k garbage ∷ es) m = state_after es m
  state_after (crashes k ∷ es) m = state_after es m

  abbrev pub client : ℕ → Map FrontEnd → FrontEnd
  client k c = or_default (make_front_end k) (lookup k c)

  abbrev pub returned : ℕ → Service → System machine × FrontEnd × Reply Text → Service × Reply Text
  returned k s (w, f, a) = (record { system = w; clients = insert k f s.clients }, a)

  module _ (sleep : System machine → System machine) (fuel n : ℕ) (name : Text) where
    -- The answers of a sequence of calls.
    abbrev pub run_calls : List Call → Service → Result (Service × List (Reply Text))
    run_calls [] s = ok (s, [])
    run_calls (writes k operation ∷ es) s =
        stub_apply machine sleep fuel n name operation s.system (client k s.clients) >>= λ r.
        run_calls es (returned k s r).0 >>= λ x. ok (x.0, (returned k s r).1 ∷ x.1)
    run_calls (reads k garbage ∷ es) s =
        stub_get_state machine sleep fuel n name garbage s.system (client k s.clients) >>= λ r.
        run_calls es (returned k s r).0 >>= λ x. ok (x.0, (returned k s r).1 ∷ x.1)
    run_calls (crashes k ∷ es) s = run_calls es (record s {
      system = record { cluster = without k s.system.cluster; stores = without k s.system.stores };
    })

  -- The replicas that run agree on the leader and on the state of the machine, and no front end is
  -- looking for a leader.
  pub record Serves (name : Text) (n leader b : ℕ) (m : machine.State) (s : Service) : Type 0 where
    pub led : IsLed n leader s.system.cluster
    pub replicated : IsReplicated machine name n leader b m s.system.stores
    pub idle : (k : ℕ) → (id : ℕ) × (known : ℕ) × (client k s.clients ≡ knows id known)

  module _ (sleep : System machine → System machine) (fuel n leader : ℕ) (name : Text) where
    pub apply_at-leader :
        (operation : Text) (c : Stores machine) (o : Option (Store machine))
        → apply_at machine name operation n leader leader c o
          ≡ apply_all machine name operation n leader c o
    unfolding apply_at apply_all
    apply_at-leader operation c none = refl
    apply_at-leader operation c (some s) = rw (==_self leader) refl

    pub prepare_at-leader :
        (garbage id : ℕ) (c : Stores machine) (o : Option (Store machine))
        → prepare_at machine n leader name leader garbage id c o
          ≡ prepare_get_state machine n leader name garbage id c o
    unfolding prepare_at prepare_get_state
    prepare_at-leader garbage id c none = refl
    prepare_at-leader garbage id c (some s) = rw (==_self leader) refl

    pub stub_apply-agrees :
        (id known b : ℕ) (operation : Text) (m : machine.State) (w : System machine)
        → b ≤ 2147483647
        → IsLed n leader w.cluster
        → IsReplicated machine name n leader b m w.stores
        → (d : Stores machine) × (stub_apply machine sleep
              (suc fuel)
              n
              name
              operation
              w
              (knows id known)
            ≡ ok (record w { stores = d }, knows id leader, done (machine.apply operation m).1))
          × IsReplicated machine name n leader (b + 1) (machine.apply operation m).0 d
    unfolding stub_apply
    stub_apply-agrees id known b operation m w small h r =
        let (d, e, a) = apply_all-agrees machine name n leader b operation m w.stores small r in
        (
          d,
          rw
              (
                find_leader-finds machine n leader sleep fuel id known w h,
                known_by_leader machine n leader w h,
                apply_at-leader operation w.stores (lookup leader w.stores),
                e,
              )
              refl,
          a,
        )

    pub stub_get_state-agrees :
        (id known b garbage : ℕ) (m : machine.State) (w : System machine)
        → b ≤ 2147483647
        → IsLed n leader w.cluster
        → IsReplicated machine name n leader b m w.stores
        → (d : Stores machine) × (stub_get_state machine sleep
              (suc fuel)
              n
              name
              garbage
              w
              (knows id known)
            ≡ ok (record w { stores = d }, knows id leader, done (machine.get_state m)))
          × IsReplicated machine name n leader (b + 1) m d
    unfolding stub_get_state read_from declared
    stub_get_state-agrees id known b garbage m w small h r =
        let (where_to, x, f, p) =
          prepare-Prepared machine name m n leader b small garbage (to_int16 id) r.leads.0 w.stores
            h.few r.leads.1 r in
        let (d, g, a) = get-Agrees machine name m n leader b small where_to (to_int16 id) x p in
        (
          d,
          rw
              (
                find_leader-finds machine n leader sleep fuel id known w h,
                known_by_leader machine n leader w h,
                prepare_at-leader garbage (to_int16 id) w.stores (lookup leader w.stores),
                f,
                g,
              )
              refl,
          a,
        )
