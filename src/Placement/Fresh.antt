-- ===== src/Placement/Fresh.antt =====
-- The leader's `create` of a new machine puts the replicas in agreement on it.
use ece.Prelude.{
  ℕ, zero, suc, ◌+◌, ◌<◌, ◌≤◌, ◌≡◌, refl, sym, ◌∙◌, inl, inr, true, false, Option, none, some, [],
  arith, ◌==◌, ==→eq, Bool-cases, ok,
}
use ece.Int32.{IsNatural}
use ece.Map.{lookup}
use ece.Machines.{find, Text, Machine, Store, queue_of, state_exists}
use ece.Placement.{Stores, verdict_of, create_copies}
use ece.Placement.Copies.{IsUniform, runs_in, Smaller}
use ece.Placement.Create.{create_loop-Made}
use ece.Placement.Least.{lacks_in, holders, lacking}
use ece.Writing.Turn.{Agrees}
use ece.Writing.Agreement.{IsReplicated}

module _ (machine : Machine) (name : Text) where
  -- A replica, if it runs, has no machine of that name, no request for it, and a load below b.
  abbrev pub IsWithout : ℕ → Option (Store machine) → Type 0
  IsWithout b none = Unit
  IsWithout b (some s) =
      (find name s.machines ≡ none) × (queue_of machine name s ≡ []) × (s.bw_utilization < b)

  IsWithout-IsUniform :
      (m : machine.State) (b : ℕ) (o : Option (Store machine))
      → IsWithout b o
      → IsUniform machine name b m o
  IsWithout-IsUniform m b none h = tt
  IsWithout-IsUniform m b (some s) (h, q, l) = (inl h, q, l)

  IsUniform-Agrees :
      (m : machine.State) (b : ℕ) (o : Option (Store machine))
      → lacks_in machine name o ≡ false
      → IsUniform machine name b m o
      → Agrees machine name b m o
  unfolding state_exists
  IsUniform-Agrees m b none h u = tt
  IsUniform-Agrees m b (some s) h (inl e, q, l) = cc (rw e at h)
  IsUniform-Agrees m b (some s) h (inr e, q, l) = (e, q, l)

  none_lack :
      (rounds i k : ℕ) (c : Stores machine)
      → lacking machine name rounds i c ≡ 0
      → i ≤ k
      → k < i + rounds
      → lacks_in machine name (lookup k c) ≡ false
  none_lack zero i k c h a b = absurd (omega arith)
  none_lack (suc rounds) i k c h a b = elim (Bool-cases (lacks_in machine name (lookup i c))) [
    | inl lacks ↦ absurd (omega (arith, rw lacks at h))
    | inr has ↦ elim (Bool-cases (i == k)) [
      | inl here ↦ rw (sym (==→eq i k here)) has
      | inr later ↦
          none_lack rounds (i + 1) k c (omega (arith, rw has at h)) (ground arith) (omega arith)
    ]
  ]

  runs_in-some :
      (o : Option (Store machine))
      → runs_in machine name o ≡ true
      → (s : Store machine) × (o ≡ some s)
  runs_in-some none h = cc
  runs_in-some (some s) h = (s, refl)

-- Where just three of the n replicas run, the leader among them, and none of them has a machine of
-- that name or a request for it, the leader's `create` succeeds, and the three then agree on the
-- machine in its initial state. (The counters of the replicas are away from the largest int.)
pub create_copies-fresh :
    (machine : Machine) (name initial : Text) (n id b : ℕ) (c : Stores machine)
    → IsNatural n
    → Smaller machine name 2147483644 c
    → id < n
    → runs_in machine name (lookup id c) ≡ true
    → ((k : ℕ) → IsWithout machine name b (lookup k c))
    → holders machine name n 0 c ≡ 0
    → lacking machine name n 0 c ≡ 3
    → (d : Stores machine) × (create_copies machine n id name initial c ≡ ok (d, none))
      × IsReplicated machine name n id b (machine.make initial) d
unfolding create_copies verdict_of
create_copies-fresh machine name initial n id b c nat small below leads h none_has all_lack =
    let m =
      create_loop-Made machine name initial n id nat 3 2147483644 true c (omega arith) (omega arith)
        (omega arith) (omega arith) small in
    let uniform =
      m.uniform b
        (λ k. IsWithout-IsUniform machine name (machine.make initial) b (lookup k c) (h k)) in
    (
      m.after,
      rw (m.returns, m.fresh none_has) refl,
      record {
        below = below;
        leads = runs_in-some machine name (lookup id m.after) (m.same id ∙ leads);
        agree = λ k l.
            IsUniform-Agrees machine name (machine.make initial) b (lookup k m.after)
              (none_lack machine name n 0 k m.after (omega (arith, m.total, m.count)) (omega arith)
                (omega arith))
              (uniform k);
      },
    )
