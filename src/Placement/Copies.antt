-- ===== src/Placement/Copies.antt =====
-- How many copies the leader's `create` makes.
use ece.Prelude.{
  ℕ, zero, suc, ◌+◌, ◌<◌, ◌≤◌, ◌≡◌, refl, sym, ◌⊎◌, [], Bool, true, false, Option, none, some,
  arith, ◌==◌, ==→eq, if◌then◌else◌, Bool-cases, inl, inr, Result, ok,
}
use ece.Int32.{inc, IsNatural}
use ece.Map.{lookup, insert, lookup-insert}
use ece.Machines.{
  find, ErrorType, Text, Machine, Store, Reply, done, queue_of, state_exists, create,
}
use ece.Machines.Tables.{same_text_self, find-put}
use ece.Placement.{int_max, Stores, place_own, place_at, place}
use ece.Placement.Least.{has_in, lacks_in, count_if, holders, lacking, IsSmall}
use ece.Replica.{minus_one}

module _ (machine : Machine) (name : Text) where
  module _ (f : Option (Store machine) → Bool) (k : ℕ) (t : Store machine) where
    count_if-above :
        (rounds i : ℕ) (c : Stores machine)
        → k < i
        → count_if machine name f rounds i (insert k t c) ≡ count_if machine name f rounds i c
    count_if-above zero i c h = refl
    count_if-above (suc rounds) i c h =
        let other : (k == i) ≡ false = ground arith in
        rw (lookup-insert k i t c, other, count_if-above rounds (i + 1) c (omega arith)) refl

    count_if-insert :
        (rounds i : ℕ) (c : Stores machine)
        → i ≤ k
        → k < i + rounds
        → count_if machine name f rounds i (insert k t c) + (if f (lookup k c) then 1 else 0)
          ≡ count_if machine name f rounds i c + (if f (some t) then 1 else 0)
    count_if-insert zero i c a b = absurd (omega arith)
    count_if-insert (suc rounds) i c a b = elim (Bool-cases (k == i)) [
      | inl here ↦
          let e = ==→eq k i here in
          rw (lookup-insert k i t c, here, count_if-above rounds (i + 1) c (omega arith), e)
            (omega arith)
      | inr later ↦
          let rest = count_if-insert rounds (i + 1) c (ground arith) (omega arith) in
          rw (lookup-insert k i t c, later) (omega (arith, rest))
    ]

  -- A replica, if it runs, has the machine in state m or not at all, no request for it, and a load
  -- below b.
  abbrev pub IsUniform : ℕ → machine.State → Option (Store machine) → Type 0
  IsUniform b m none = Unit
  IsUniform b m (some s) =
      ((find name s.machines ≡ none) ⊎ (find name s.machines ≡ some m))
      × (queue_of machine name s ≡ [])
      × (s.bw_utilization < b)

  -- A copy on a store without the machine.
  pub record Placed (initial : Text) (s : Store machine) (r : Reply (Store machine)) : Type 0 where
    pub after : Store machine
    pub returns : r ≡ done after
    pub has : state_exists machine name after ≡ true
    pub memory : after.mem_utilization ≡ inc s.mem_utilization
    pub uniform :
        (b : ℕ)
        → IsUniform b (machine.make initial) (some s)
        → IsUniform b (machine.make initial) (some after)

  pub create-Placed :
      (initial : Text) (s : Store machine)
      → state_exists machine name s ≡ false
      → Placed initial s (create machine name initial s)
  unfolding create
  create-Placed initial s h = rw h (record {
    after = _;
    returns = refl;
    has =
        unfold state_exists in
        rw (find-put name name (machine.make initial) s.machines, same_text_self name) refl;
    memory = refl;
    uniform = λ b u. (
      inr (rw (find-put name name (machine.make initial) s.machines, same_text_self name) refl),
      rw (find-put name name (queue_of machine name s) s.request_queue, same_text_self name) u.1,
      u.2,
    );
  })

  place_own-Placed :
      (initial : Text) (s : Store machine)
      → state_exists machine name s ≡ false
      → Placed initial s (done (place_own machine name initial s))
  unfolding place_own
  place_own-Placed initial s h = rw h (record {
    after = _;
    returns = refl;
    has =
        unfold state_exists in
        rw (find-put name name (machine.make initial) s.machines, same_text_self name) refl;
    memory = refl;
    uniform = λ b u. (
      inr (rw (find-put name name (machine.make initial) s.machines, same_text_self name) refl),
      u.1,
      u.2,
    );
  })

  abbrev pub Smaller : ℕ → Stores machine → Type 0
  Smaller b c = (k : ℕ) → IsSmall machine name b (lookup k c)

  IsSmall-suc :
      (b : ℕ) (o : Option (Store machine))
      → IsSmall machine name b o
      → IsSmall machine name (b + 1) o
  IsSmall-suc b none h = tt
  IsSmall-suc b (some s) h = omega arith

  abbrev pub runs_in : Option (Store machine) → Bool
  runs_in none = false
  runs_in (some s) = true

  -- One copy more.
  pub record Round (initial : Text) (n b : ℕ) (c : Stores machine)
      (r : Result (Stores machine × Option ErrorType)) : Type 0 where
    pub after : Stores machine
    pub returns : r ≡ ok (after, none)
    pub copies : holders machine name n 0 after ≡ holders machine name n 0 c + 1
    pub left : lacking machine name n 0 after + 1 ≡ lacking machine name n 0 c
    pub small : Smaller (b + 1) after
    pub same : (j : ℕ) → runs_in (lookup j after) ≡ runs_in (lookup j c)
    pub uniform :
        (d : ℕ)
        → ((j : ℕ) → IsUniform d (machine.make initial) (lookup j c))
        → (j : ℕ) → IsUniform d (machine.make initial) (lookup j after)
    pub absent : lookup minus_one c ≡ none → lookup minus_one after ≡ none

  insert-Smaller :
      (k b : ℕ) (s t : Store machine) (c : Stores machine)
      → b ≤ int_max
      → lookup k c ≡ some s
      → t.mem_utilization ≡ inc s.mem_utilization
      → Smaller b c
      → Smaller (b + 1) (insert k t c)
  unfolding inc
  insert-Smaller k b s t c l e m h j = rw (lookup-insert k j t c) (elim (Bool-cases (k == j)) [
    | inl here ↦ rw here (omega (arith, m, rw e at (h k)))
    | inr other ↦ rw other (IsSmall-suc b (lookup j c) (h j))
  ])

  placed-Round :
      (initial : Text) (k n b : ℕ) (c : Stores machine) (s : Store machine)
      (r : Reply (Store machine))
      → IsNatural n
      → k < n
      → b ≤ int_max
      → lookup k c ≡ some s
      → state_exists machine name s ≡ false
      → Smaller b c
      → Placed initial s r
      → Round initial n b c (ok (place_at machine k c r))
  unfolding place_at
  placed-Round initial k n b c s r nat below l e lacks h p = record {
    after = insert k p.after c;
    returns = rw p.returns refl;
    copies =
        let q = count_if-insert (has_in machine name) k p.after n 0 c (omega arith) (omega arith) in
        omega (arith, rw (e, lacks, p.has) at q);
    left =
        let q =
          count_if-insert (lacks_in machine name) k p.after n 0 c (omega arith) (omega arith) in
        omega (arith, rw (e, lacks, p.has) at q);
    small = insert-Smaller k b s p.after c l e p.memory h;
    same = λ j. rw (lookup-insert k j p.after c) (elim (Bool-cases (k == j)) [
      | inl here ↦ rw here (rw (sym (==→eq k j here)) (rw e refl))
      | inr other ↦ rw other refl
    ]);
    uniform = λ d u j. rw (lookup-insert k j p.after c) (elim (Bool-cases (k == j)) [
      | inl here ↦ rw here (p.uniform d (rw e at (u k)))
      | inr other ↦ rw other (u j)
    ]);
    absent = λ a.
        let other : (k == minus_one) ≡ false = ground arith in
        rw (lookup-insert k minus_one p.after c, other, a) refl;
  }

  pub place-Round :
      (own : Bool) (k n b : ℕ) (initial : Text) (o : Option (Store machine)) (c : Stores machine)
      → IsNatural n
      → k < n
      → b ≤ int_max
      → lookup k c ≡ o
      → lacks_in machine name o ≡ true
      → Smaller b c
      → Round initial n b c (place machine own k name initial o c)
  unfolding place
  place-Round own k n b initial none c nat below l e lacks h = cc
  place-Round true k n b initial (some s) c nat below l e lacks h =
      let without : state_exists machine name s ≡ false = ground arith in
      placed-Round initial k n b c s _ nat below l e without h (place_own-Placed initial s without)
  place-Round false k n b initial (some s) c nat below l e lacks h =
      let without : state_exists machine name s ≡ false = ground arith in
      placed-Round initial k n b c s _ nat below l e without h (create-Placed initial s without)
