-- ===== src/Copying/Choosing.antt =====
-- The leader's choice where the replicas agree on the machine: there is one, and nothing to copy.
use mathlib.Core.Path.{subst}
use ece.Prelude.{
  ℕ, zero, suc, ◌+◌, ◌<◌, ◌≤◌, ◌≡◌, refl, false, ◌⊎◌, inl, inr, Option, none, some, [], arith, ◌==◌,
  ==→eq, ==_self, Bool-cases,
}
use ece.Int32.{slt}
use ece.Replica.{to_int16}
use ece.Replica.Loads.{slt-to_int16}
use ece.Map.{lookup, insert, lookup-insert}
use ece.Machines.{Text, Machine, Store, done, state_exists}
use ece.Placement.{int_max, Stores}
use ece.Reading.{Choice, no_choice, consider, consider_loop, choose_reader}
use ece.Writing.Turn.{Agrees}
use ece.Writing.Agreement.{IsReplicated}

module _ (machine : Machine) (name : Text) (m : machine.State) where
  pub Agrees-suc :
      (b : ℕ) (o : Option (Store machine))
      → Agrees machine name b m o
      → Agrees machine name (b + 1) m o
  Agrees-suc b none h = tt
  Agrees-suc b (some s) (h, q, l) = (h, q, omega arith)

  module _ (n id b : ℕ) (small : b ≤ 2147483647) where
    pub insert-IsReplicated :
        (s : Store machine) (c : Stores machine)
        → Agrees machine name b m (some s)
        → IsReplicated machine name n id b m c
        → IsReplicated machine name n id b m (insert id s c)
    insert-IsReplicated s c a r = record {
      below = r.below;
      leads = (s, rw (lookup-insert id id s c, ==_self id) refl);
      agree = λ k l. rw (lookup-insert id k s c) (elim (Bool-cases (id == k)) [
        | inl here ↦ rw here a
        | inr other ↦ rw other (r.agree k l)
      ]);
    }

    -- The choice before the round for replica i: nothing is to be copied.
    record Choosing (c : Stores machine) (i : ℕ) (v : Choice) : Type 0 where
      complete : v.copy_over ≡ []
      found :
          ((v.count ≡ 0) × (v.least ≡ int_max))
          ⊎ ((v.least_index < n) × (s : Store machine) × (lookup v.least_index c ≡ some s))
      counted : id < i → 0 < v.count

    consider-Choosing :
        (i : ℕ) (c : Stores machine) (v : Choice) (o : Option (Store machine))
        → IsReplicated machine name n id b m c
        → lookup i c ≡ o
        → i < n
        → Choosing c i v
        → Choosing c (i + 1) (consider machine name i o v)
    unfolding consider state_exists
    consider-Choosing i c v none r e l p = record {
      complete = p.complete;
      found = p.found;
      counted = λ h. elim (Bool-cases (i == id)) [
        | inl own ↦ absurd (cc (r.leads.1, rw (==→eq i id own) at e))
        | inr other ↦ p.counted (ground arith)
      ];
    }
    consider-Choosing i c v (some s) r e l p =
        let a : Agrees machine name b m (some s) = rw e at (r.agree i l) in
        elim (Bool-cases (slt (to_int16 s.bw_utilization) v.least)) [
          | inl less ↦
              rw (a.0, less)
                (record {
                  complete = p.complete;
                  found = inr (l, s, e);
                  counted = λ h. omega arith;
                })
          | inr more ↦
              rw (a.0, more)
                (record {
                  complete = p.complete;
                  found = elim p.found [
                    | inl first ↦ cc (slt-to_int16 s.bw_utilization v.least first.1, more)
                    | inr one ↦ inr one
                  ];
                  counted = λ h. omega arith;
                })
        ]

    consider_loop-Choosing :
        (rounds i : ℕ) (c : Stores machine) (v : Choice)
        → IsReplicated machine name n id b m c
        → i + rounds ≡ n
        → Choosing c i v
        → Choosing c n (consider_loop machine name rounds i c v)
    unfolding consider_loop
    consider_loop-Choosing zero i c v r l p = subst (λ (j : ℕ). Choosing c j v) (omega arith) p
    consider_loop-Choosing (suc rounds) i c v r l p =
        consider_loop-Choosing rounds (i + 1) c (consider machine name i (lookup i c) v) r
          (omega arith) (consider-Choosing i c v (lookup i c) r refl (omega arith) p)

    -- The leader has queued the read for a running replica.
    pub choose-returns :
        (garbage : ℕ) (c : Stores machine)
        → IsReplicated machine name n id b m c
        → (v : Choice) × (choose_reader machine name garbage n c ≡ done v)
          × (v.copy_over ≡ [])
          × (v.least_index < n)
          × (s : Store machine) × (lookup v.least_index c ≡ some s)
    unfolding choose_reader
    choose-returns garbage c r =
        let v = consider_loop machine name n 0 c (no_choice garbage) in
        let p = consider_loop-Choosing n 0 c (no_choice garbage) r (omega arith) (record {
          complete = refl;
          found = inl (refl, refl);
          counted = λ h. absurd (omega arith);
        }) in
        let some_has : (v.count == 0) ≡ false = ground (arith, p.counted r.below) in
        elim p.found [
          | inl first ↦ absurd (ground arith)
          | inr (l, s, e) ↦ (v, rw some_has refl, p.complete, l, s, e)
        ]
