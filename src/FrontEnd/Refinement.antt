-- ===== src/FrontEnd/Refinement.antt =====
-- The replicated service refines one machine.
use mathlib.Core.Path.{subst}
use ece.Prelude.{
  ℕ, suc, ◌+◌, ◌≤◌, ◌≡◌, refl, true, false, List, [], ◌∷◌, arith, ◌==◌, Bool-cases, inl, inr, ok,
}
use ece.Map.{Map, insert, lookup-insert}
use ece.Machines.{Text, Machine}
use ece.Placement.{Stores}
use ece.Replica.{Cluster}
use ece.FrontEnd.{FrontEnd, System}
use ece.FrontEnd.Search.{IsLed, knows}
use ece.Writing.Agreement.{IsReplicated}
use ece.FrontEnd.Calls.{
  Call, writes, reads, crashes, without, lookup-without, spares, how_many, Service, answers_of,
  state_after, client, run_calls, Serves, stub_apply-agrees, stub_get_state-agrees,
}

without-IsLed :
    (n leader k : ℕ) (c : Cluster)
    → (k == leader) ≡ false
    → IsLed n leader c
    → IsLed n leader (without k c)
without-IsLed n leader k c o h = record {
  below = h.below;
  few = h.few;
  leads = (h.leads.0, rw (lookup-without k leader c, o) h.leads.1);
  known = λ j.
      rw (lookup-without k j c)
        (elim (Bool-cases (k == j)) [ inl same ↦ rw same tt | inr other ↦ rw other (h.known j) ]);
}

module _ (machine : Machine) (name : Text) (n leader : ℕ) where
  without-IsReplicated :
      (b k : ℕ) (m : machine.State) (c : Stores machine)
      → (k == leader) ≡ false
      → IsReplicated machine name n leader b m c
      → IsReplicated machine name n leader b m (without k c)
  without-IsReplicated b k m c o h = record {
    below = h.below;
    leads = (h.leads.0, rw (lookup-without k leader c, o) h.leads.1);
    agree = λ j l.
        rw (lookup-without k j c) (elim (Bool-cases (k == j)) [
          | inl same ↦ rw same tt
          | inr other ↦ rw other (h.agree j l)
        ]);
  }

  pub client-idle :
      (k id : ℕ) (clients : Map FrontEnd)
      → ((j : ℕ) → (i : ℕ) × (known : ℕ) × (client machine j clients ≡ knows i known))
      → (j : ℕ)
      → (i : ℕ) × (known : ℕ) × (client machine j (insert k (knows id leader) clients)
          ≡ knows i known)
  client-idle k id clients h j = elim (Bool-cases (k == j)) [
    | inl same ↦ (id, leader, rw (lookup-insert k j (knows id leader) clients, same) refl)
    | inr other ↦
        let (i, known, e) = h j in
        (i, known, rw (lookup-insert k j (knows id leader) clients, other) e)
  ]

  module _ (sleep : System machine → System machine) (fuel : ℕ) where
    -- What a sequence of calls comes to.
    record Answers (es : List Call) (b : ℕ) (m : machine.State) (s : Service machine) : Type 0 where
      after : Service machine
      returns : run_calls machine sleep (suc fuel) n name es s ≡ ok (after, answers_of machine es m)
      serves : Serves machine name n leader (b + how_many es) (state_after machine es m) after

    write-Answers :
        (k b : ℕ) (operation : Text) (es : List Call) (m : machine.State) (s : Service machine)
        → b ≤ 2147483647
        → Serves machine name n leader b m s
        → ((t : Service machine)
            → Serves machine name n leader (b + 1) (machine.apply operation m).0 t
            → Answers es (b + 1) (machine.apply operation m).0 t)
        → Answers (writes k operation ∷ es) b m s
    write-Answers k b operation es m s small h rest =
        let (id, known, e) = h.idle k in
        let (d, f, r) =
          stub_apply-agrees machine sleep fuel n leader name id known b operation m s.system small
            h.led h.replicated in
        let next : Answers es (b + 1) (machine.apply operation m).0 _ =
          rest
            (record {
              system = record s.system { stores = d };
              clients = insert k (knows id leader) s.clients;
            })
            (record { led = h.led; replicated = r; idle = client-idle k id s.clients h.idle }) in
        record {
          after = next.after;
          returns = rw (e, f, next.returns) refl;
          serves =
              subst
                (λ (x : ℕ).
                  Serves machine name n leader x
                    (state_after machine es (machine.apply operation m).0) next.after)
                (omega arith) next.serves;
        }

    read-Answers :
        (k b garbage : ℕ) (es : List Call) (m : machine.State) (s : Service machine)
        → b ≤ 2147483647
        → Serves machine name n leader b m s
        → ((t : Service machine)
            → Serves machine name n leader (b + 1) m t
            → Answers es (b + 1) m t)
        → Answers (reads k garbage ∷ es) b m s
    read-Answers k b garbage es m s small h rest =
        let (id, known, e) = h.idle k in
        let (d, f, r) =
          stub_get_state-agrees machine sleep fuel n leader name id known b garbage m s.system small
            h.led h.replicated in
        let next : Answers es (b + 1) m _ =
          rest
            (record {
              system = record s.system { stores = d };
              clients = insert k (knows id leader) s.clients;
            })
            (record { led = h.led; replicated = r; idle = client-idle k id s.clients h.idle }) in
        record {
          after = next.after;
          returns = rw (e, f, next.returns) refl;
          serves =
              subst
                (λ (x : ℕ). Serves machine name n leader x (state_after machine es m) next.after)
                (omega arith) next.serves;
        }

    run_calls-Answers :
        (es : List Call) (b : ℕ) (m : machine.State) (s : Service machine)
        → b + how_many es ≤ 2147483647
        → spares leader es ≡ true
        → Serves machine name n leader b m s
        → Answers es b m s
    run_calls-Answers [] b m s small p h = record {
      after = s;
      returns = refl;
      serves = subst (λ (x : ℕ). Serves machine name n leader x m s) (omega arith) h;
    }
    run_calls-Answers (writes k operation ∷ es) b m s small p h =
        write-Answers k b operation es m s (omega arith) h
          (λ t. run_calls-Answers es (b + 1) (machine.apply operation m).0 t (omega arith) p)
    run_calls-Answers (reads k garbage ∷ es) b m s small p h =
        read-Answers k b garbage es m s (omega arith) h
          (λ t. run_calls-Answers es (b + 1) m t (omega arith) p)
    run_calls-Answers (crashes k ∷ es) b m s small p h =
        let other : (k == leader) ≡ false = ground arith in
        let rest = run_calls-Answers es b m _ (omega arith) (ground arith) (record {
          led = without-IsLed n leader k s.system.cluster other h.led;
          replicated = without-IsReplicated b k m s.system.stores other h.replicated;
          idle = h.idle;
        }) in
        record { after = rest.after; returns = rest.returns; serves = rest.serves }

    -- From where those of at most 32768 replicas that run agree on a leader, which is one of them,
    -- and on the state of a machine for which no request waits, and no front end is looking for a
    -- leader: any sequence of writes and reads of that machine by any front ends, one after the
    -- other, with crashes of any replicas but the leader in between, returns, and gives the answers
    -- that one machine in that state gives to the same writes and reads. (The loads of the replicas
    -- do not reach the largest int.)
    pub run_calls-refines :
        (es : List Call) (b : ℕ) (m : machine.State) (s : Service machine)
        → b + how_many es ≤ 2147483647
        → spares leader es ≡ true
        → Serves machine name n leader b m s
        → (t : Service machine) × (run_calls machine sleep (suc fuel) n name es s
            ≡ ok (t, answers_of machine es m))
    run_calls-refines es b m s small p h =
        let a = run_calls-Answers es b m s small p h in (a.after, a.returns)
