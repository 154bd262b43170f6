-- ===== src/Copying/Recovery.antt =====
-- A read where one replica runs without the machine, as where one of the three that had it is gone.
use ece.Prelude.{
  ℕ, zero, suc, ◌+◌, ◌-◌, ◌<◌, ◌≤◌, ◌≡◌, ◌⊎◌, refl, ap, ◌∙◌, Bool, true, false, inl, inr, Option,
  none, some, List, [], ◌∷◌, All, All-append, length, arith, ◌==◌, ==→eq, Bool-cases, ok,
}
use ece.Int32.{slt}
use ece.Replica.{to_int16}
use ece.Replica.Loads.{slt-to_int16}
use ece.Map.{lookup, insert}
use ece.Machines.{Text, find, Machine, Store, state_exists}
use ece.Machines.Tables.{create-makes}
use ece.Placement.{int_max, Stores, place, place_at}
use ece.Placement.Copies.{IsUniform, create-Placed}
use ece.Placement.Least.{lacks_in, count_if}
use ece.Reading.{Choice, consider, consider_loop}
use ece.Copying.{
  nth, Target, weigh, weigh_loop, copy_to, copy_from, make_copy, after_copy, copy_loop,
}

module _ (machine : Machine) (name : Text) (m : machine.State) (n b : ℕ)
    (small : b ≤ 2147483647) where
  abbrev pub IsTarget : Stores machine → ℕ → Type 0
  IsTarget c q = (q < n) × (lacks_in machine name (lookup q c) ≡ true)

  -- The choice so far: those to copy to lack the machine, and the chosen one has it.
  pub record Choosing (c : Stores machine) (v : Choice) : Type 0 where
    pub over : All (IsTarget c) v.copy_over
    pub found :
        ((v.count ≡ 0) × (v.least ≡ int_max))
        ⊎ ((v.least_index < n)
            × (s : Store machine) × (lookup v.least_index c ≡ some s)
            × (find name s.machines ≡ some m))

  consider-Choosing :
      (i : ℕ) (c : Stores machine) (v : Choice) (o : Option (Store machine))
      → lookup i c ≡ o
      → i < n
      → IsUniform machine name b m o
      → Choosing c v
      → Choosing c (consider machine name i o v)
  unfolding consider state_exists
  consider-Choosing i c v none e l u p = record { over = p.over; found = p.found }
  consider-Choosing i c v (some s) e l (inl without, q, load) p = rw without (record {
    over = All-append (IsTarget c) v.copy_over (i ∷ []) p.over ((l, rw e (rw without refl)), tt);
    found = p.found;
  })
  consider-Choosing i c v (some s) e l (inr has, q, load) p =
      elim (Bool-cases (slt (to_int16 s.bw_utilization) v.least)) [
        | inl less ↦ rw (has, less) (record { over = p.over; found = inr (l, s, e, has) })
        | inr more ↦
            rw (has, more)
              (record {
                over = p.over;
                found = elim p.found [
                  | inl first ↦ cc (slt-to_int16 s.bw_utilization v.least first.1, more)
                  | inr one ↦ inr one
                ];
              })
      ]

  pub consider_loop-Choosing :
      (rounds i : ℕ) (c : Stores machine) (v : Choice)
      → ((k : ℕ) → k < n → IsUniform machine name b m (lookup k c))
      → i + rounds ≤ n
      → Choosing c v
      → Choosing c (consider_loop machine name rounds i c v)
  unfolding consider_loop
  consider_loop-Choosing zero i c v u l p = p
  consider_loop-Choosing (suc rounds) i c v u l p =
      consider_loop-Choosing rounds (i + 1) c (consider machine name i (lookup i c) v) u
        (omega arith)
        (consider-Choosing i c v (lookup i c) refl (omega arith) (u i (omega arith)) p)

  -- Asking a replica at least once finds it.
  weigh-still :
      (i : ℕ) (s : Store machine) (t : Target)
      → t.index ≡ some i
      → (weigh machine i (some s) t).index ≡ some i
  unfolding weigh
  weigh-still i s t h = elim (Bool-cases (slt (to_int16 s.mem_utilization) t.least)) [
    | inl less ↦ rw less refl
    | inr more ↦ rw more h
  ]

  weigh-finds :
      (i : ℕ) (s : Store machine)
      → (weigh machine i (some s) (record { index = none; least = int_max })).index ≡ some i
  unfolding weigh
  weigh-finds i s = rw (slt-to_int16 s.mem_utilization int_max refl) refl

  weigh_loop-still :
      (rounds i : ℕ) (s : Store machine) (t : Target)
      → t.index ≡ some i
      → (weigh_loop machine rounds i (some s) t).index ≡ some i
  unfolding weigh_loop
  weigh_loop-still zero i s t h = h
  weigh_loop-still (suc rounds) i s t h =
      weigh_loop-still rounds i s (weigh machine i (some s) t) (weigh-still i s t h)

  weigh_loop-finds :
      (rounds i : ℕ) (s : Store machine)
      → 0 < rounds
      → (weigh_loop machine rounds i (some s) (record { index = none; least = int_max })).index
        ≡ some i
  unfolding weigh_loop
  weigh_loop-finds zero i s h = absurd (omega arith)
  weigh_loop-finds (suc rounds) i s h = weigh_loop-still rounds i s _ (weigh-finds i s)

  pub count_if_positive :
      (f : Option (Store machine) → Bool) (rounds i k : ℕ) (c : Stores machine)
      → f (lookup k c) ≡ true
      → i ≤ k
      → k < i + rounds
      → 0 < count_if machine name f rounds i c
  count_if_positive f zero i k c h a l = absurd (omega arith)
  count_if_positive f (suc rounds) i k c h a l = elim (Bool-cases (i == k)) [
    | inl here ↦ rw (ap (λ (j : ℕ). f (lookup j c)) (==→eq i k here) ∙ h) (omega arith)
    | inr later ↦
        let rest = count_if_positive f rounds (i + 1) k c h (ground arith) (omega arith) in
        omega (arith, rest)
  ]

  pub just_one : (l : List ℕ) → length l ≡ 1 → (q : ℕ) × (l ≡ q ∷ [])
  just_one [] h = absurd (omega arith)
  just_one (q ∷ []) h = (q, refl)
  just_one (q ∷ r ∷ l) h = absurd (omega arith)

  -- The machine on replica k, if that runs.
  abbrev pub Holds : Option (Store machine) → Type 0
  Holds none = Unit
  Holds (some s) = find name s.machines ≡ some m

  -- The copy on replica q.
  copy_returns :
      (id q : ℕ) (s t : Store machine) (c : Stores machine)
      → (q == id) ≡ false
      → find name s.machines ≡ some m
      → lookup q c ≡ some t
      → state_exists machine name t ≡ false
      → machine.make (machine.get_state m) ≡ m
      → (u : Store machine) × (make_copy machine n id name q (some s) c ≡ ok (insert q u c, none))
        × (find name u.machines ≡ some m)
  unfolding make_copy copy_from copy_to place place_at
  copy_returns id q s t c other has runs lacks reload =
      let p = create-Placed machine name (machine.get_state m) t lacks in
      let made = create-makes machine name (machine.get_state m) t p.after p.returns in
      (p.after, rw (has, other, runs, p.returns) refl, made.1 ∙ rw reload refl)

  pub copy_loop_returns :
      (id q : ℕ) (v : Choice) (s t z : Store machine) (c : Stores machine)
      → v.count < 3
      → v.copy_over ≡ q ∷ []
      → lookup 0 c ≡ some z
      → lookup v.least_index c ≡ some s
      → (q == id) ≡ false
      → find name s.machines ≡ some m
      → lookup q c ≡ some t
      → state_exists machine name t ≡ false
      → machine.make (machine.get_state m) ≡ m
      → (u : Store machine) × (copy_loop machine n id name (length v.copy_over) 0 v c
          ≡ ok (insert q u c, none))
        × (find name u.machines ≡ some m)
  unfolding copy_loop after_copy nth
  copy_loop_returns id q v s t z c few one zero_runs chosen other has runs lacks reload =
      let found = weigh_loop-finds (3 - v.count) 0 z (omega arith) in
      let (u, e, f) = copy_returns id q s t c other has runs lacks reload in
      (u, rw (one, zero_runs, found, chosen, e) refl, f)
