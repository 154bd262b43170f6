-- ===== src/Copying/Missing.antt =====
-- What `prepareGetState` does where a replica runs without the machine.
use ece.Prelude.{
  length, length-append, ℕ, zero, suc, Bool, not, ◌-◌, ◌+◌, ◌<◌, ◌≤◌, ◌≡◌, refl, sym, ap, false,
  inl, inr, Option, none, some, [], ◌∷◌, arith, ◌==◌, ==→eq, if◌then◌else◌, Bool-cases, fault,
  over_read,
}
use ece.Int32.{slt}
use ece.Replica.{to_int16}
use ece.Map.{lookup, insert, lookup-insert}
use ece.Machines.{Text, Machine, Store, queue_of, set_queue, state_exists}
use ece.Placement.{Stores}
use ece.Placement.Least.{has_in, lacks_in, count_if, holders, lacking}
use ece.Reading.{Choice, no_choice, consider, consider_loop, choose_reader}
use ece.Copying.{has_write, nth, weigh_loop, copy_loop, chosen, prepare_get_state}

module _ (machine : Machine) (name : Text) where
  consider-count :
      (i : ℕ) (o : Option (Store machine)) (v : Choice)
      → (consider machine name i o v).count ≡ v.count + (if has_in machine name o then 1 else 0)
  unfolding consider
  consider-count i none v = omega arith
  consider-count i (some s) v = ground arith

  consider-length :
      (i : ℕ) (o : Option (Store machine)) (v : Choice)
      → length (consider machine name i o v).copy_over
        ≡ length v.copy_over + (if lacks_in machine name o then 1 else 0)
  unfolding consider
  consider-length i none v = omega arith
  consider-length i (some s) v = elim (Bool-cases (state_exists machine name s)) [
    | inl has ↦ elim (Bool-cases (slt (to_int16 s.bw_utilization) v.least)) [
      | inl less ↦ rw (has, less) (omega arith)
      | inr more ↦ rw (has, more) (omega arith)
    ]
    | inr lacks ↦ rw lacks (length-append v.copy_over (i ∷ []))
  ]

  pub consider_loop-count :
      (rounds i : ℕ) (c : Stores machine) (v : Choice)
      → ((consider_loop machine name rounds i c v).count
          ≡ v.count + holders machine name rounds i c)
        × (length (consider_loop machine name rounds i c v).copy_over
            ≡ length v.copy_over + lacking machine name rounds i c)
  unfolding consider_loop
  consider_loop-count zero i c v = (omega arith, omega arith)
  consider_loop-count (suc rounds) i c v =
      let (p, q) = consider_loop-count rounds (i + 1) c (consider machine name i (lookup i c) v) in
      (
        omega (arith, p, consider-count i (lookup i c) v),
        omega (arith, q, consider-length i (lookup i c) v),
      )

  -- The entry of the name in the leader's queues changes no other thing.
  pub count_if-touched :
      (f : Option (Store machine) → Bool) (rounds i id : ℕ) (s t : Store machine)
      (c : Stores machine)
      → lookup id c ≡ some s
      → f (some t) ≡ f (some s)
      → count_if machine name f rounds i (insert id t c) ≡ count_if machine name f rounds i c
  count_if-touched f zero i id s t c h e = refl
  count_if-touched f (suc rounds) i id s t c h e =
      let rest = count_if-touched f rounds (i + 1) id s t c h e in
      elim (Bool-cases (id == i)) [
        | inl own ↦
            rw (lookup-insert id i t c, own, rest) (rw (sym (==→eq id i own)) (rw (h, e) refl))
        | inr other ↦ rw (lookup-insert id i t c, other, rest) refl
      ]

  copy_loop-over_read :
      (n id : ℕ) (v : Choice) (c : Stores machine)
      → 3 ≤ v.count
      → 0 < length v.copy_over
      → copy_loop machine n id name (length v.copy_over) 0 v c ≡ fault over_read
  copy_loop-over_read n id v c a b = go (length v.copy_over) b
    where
      no_rounds : 3 - v.count ≡ 0
      no_rounds = omega arith

      no_index : nth v.copy_over none ≡ fault over_read
      no_index = unfold nth in refl

      go : (k : ℕ) → 0 < k → copy_loop machine n id name k 0 v c ≡ fault over_read
      go zero l = absurd (omega arith)
      go (suc k) l = unfold copy_loop weigh_loop in rw (no_rounds, no_index) refl

  -- A read of a machine that three replicas have already, while a fourth runs without it, does what
  -- C++ leaves undefined: the leader reads `copyOver` at an index that was not set. (No write of
  -- that machine is waiting.)
  pub prepare_get_state-over_read :
      (n id garbage client : ℕ) (s : Store machine) (c : Stores machine)
      → lookup id c ≡ some s
      → has_write (queue_of machine name s) ≡ false
      → 3 ≤ holders machine name n 0 c
      → 0 < lacking machine name n 0 c
      → prepare_get_state machine n id name garbage client c (some s) ≡ fault over_read
  unfolding prepare_get_state chosen choose_reader
  prepare_get_state-over_read n id garbage client s c h w three some_lack =
      let t = set_queue machine name (queue_of machine name s) s in
      let same : state_exists machine name t ≡ state_exists machine name s =
        unfold state_exists in refl in
      let v = consider_loop machine name n 0 (insert id t c) (no_choice garbage) in
      let (p, q) = consider_loop-count n 0 (insert id t c) (no_choice garbage) in
      let has = count_if-touched (has_in machine name) n 0 id s t c h same in
      let lacks = count_if-touched (lacks_in machine name) n 0 id s t c h (ap not same) in
      let some_has : (v.count == 0) ≡ false = ground (arith, p, has) in
      rw
        (
          w,
          some_has,
          copy_loop-over_read n id v (insert id t c) (omega (arith, p, has))
              (omega (arith, q, lacks)),
        )
        refl
