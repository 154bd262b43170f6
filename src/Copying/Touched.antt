-- ===== src/Copying/Touched.antt =====
-- The stores after `queues[name]` has an entry on the leader, and after a copy and the read queued.
use ece.Prelude.{
  ℕ, zero, suc, ◌+◌, ◌<◌, ◌≤◌, ◌≡◌, refl, ap, ◌∙◌, Bool, true, false, inl, inr, Option, none, some,
  [], arith, ◌==◌, ==→eq, Bool-cases,
}
use ece.Map.{lookup, insert, lookup-insert}
use ece.Machines.{Text, find, Machine, Store, queue_of, set_queue, state_exists}
use ece.Placement.{Stores}
use ece.Placement.Copies.{IsUniform}
use ece.Placement.Least.{has_in, lacks_in, count_if, lacking}
use ece.Copying.Recovery.{count_if_positive, Holds}
use ece.Writing.Turn.{queue_of-set}

module _ (machine : Machine) (name : Text) (m : machine.State) (n b : ℕ)
    (small : b ≤ 2147483647) where
  count_if_two :
      (f : Option (Store machine) → Bool) (rounds i k q : ℕ) (c : Stores machine)
      → f (lookup k c) ≡ true
      → f (lookup q c) ≡ true
      → (k == q) ≡ false
      → i ≤ k
      → i ≤ q
      → k < i + rounds
      → q < i + rounds
      → 2 ≤ count_if machine name f rounds i c
  count_if_two f zero i k q c h g o a d l u = absurd (omega arith)
  count_if_two f (suc rounds) i k q c h g o a d l u = elim (Bool-cases (i == k)) [
    | inl here ↦
        let here' : f (lookup i c) ≡ true = ap (λ (j : ℕ). f (lookup j c)) (==→eq i k here) ∙ h in
        let rest =
          count_if_positive machine name m n b small f rounds (i + 1) q c g (ground arith)
            (omega arith) in
        rw here' (omega (arith, rest))
    | inr later ↦ elim (Bool-cases (i == q)) [
      | inl there ↦
          let there' : f (lookup i c) ≡ true =
            ap (λ (j : ℕ). f (lookup j c)) (==→eq i q there) ∙ g in
          let rest =
            count_if_positive machine name m n b small f rounds (i + 1) k c h (ground arith)
              (omega arith) in
          rw there' (omega (arith, rest))
      | inr later' ↦
          let rest =
            count_if_two f rounds (i + 1) k q c h g o (ground arith) (ground arith) (omega arith)
              (omega arith) in
          omega (arith, rest)
    ]
  ]

  pub lacks-some :
      (o : Option (Store machine))
      → lacks_in machine name o ≡ true
      → (t : Store machine) × (o ≡ some t) × (state_exists machine name t ≡ false)
  lacks-some none h = cc
  lacks-some (some t) h = (t, refl, ground arith)

  IsUniform-Holds :
      (o : Option (Store machine))
      → lacks_in machine name o ≡ false
      → IsUniform machine name b m o
      → Holds machine name m n b small o
  unfolding state_exists
  IsUniform-Holds none h u = tt
  IsUniform-Holds (some s) h (inl e, q, l) = cc (rw e at h)
  IsUniform-Holds (some s) h (inr e, q, l) = e

  module _ (id : ℕ) where
    abbrev pub touched : Store machine → Store machine
    touched s = set_queue machine name (queue_of machine name s) s

    pub touched-has :
        (s : Store machine) → has_in machine name (some (touched s)) ≡ has_in machine name (some s)
    unfolding state_exists
    touched-has s = refl

    pub touched-lacks :
        (s : Store machine)
        → lacks_in machine name (some (touched s)) ≡ lacks_in machine name (some s)
    unfolding state_exists
    touched-lacks s = refl

    pub touched-IsUniform :
        (s : Store machine) (c : Stores machine) (k : ℕ)
        → queue_of machine name s ≡ []
        → IsUniform machine name b m (some s)
        → IsUniform machine name b m (lookup k c)
        → IsUniform machine name b m (lookup k (insert id (touched s) c))
    touched-IsUniform s c k empty u v = elim (Bool-cases (id == k)) [
      | inl own ↦
          rw (lookup-insert id k (touched s) c, own)
            (u.0, queue_of-set machine name (queue_of machine name s) s ∙ empty, u.2)
      | inr other ↦ rw (lookup-insert id k (touched s) c, other) v
    ]

    -- The leader runs, and replica 0, which is asked for its load, does.
    pub touched-zero :
        (s z : Store machine) (c : Stores machine)
        → lookup id c ≡ some s
        → lookup 0 c ≡ some z
        → (y : Store machine) × (lookup 0 (insert id (touched s) c) ≡ some y)
    touched-zero s z c e f = elim (Bool-cases (id == 0)) [
      | inl own ↦ (touched s, rw (lookup-insert id 0 (touched s) c, own) refl)
      | inr other ↦ (z, rw (lookup-insert id 0 (touched s) c, other) f)
    ]

    -- Each replica after the copy on q and the read that is queued on the leader.
    pub recovered-Holds :
        (k q : ℕ) (c : Stores machine) (t u : Store machine)
        → lacking machine name n 0 c ≡ 1
        → k < n
        → q < n
        → lacks_in machine name (lookup q c) ≡ true
        → IsUniform machine name b m (lookup k c)
        → find name t.machines ≡ some m
        → find name u.machines ≡ some m
        → Holds machine name m n b small (lookup k (insert id t (insert q u c)))
    recovered-Holds k q c t u lacks l below target uniform has made = elim (Bool-cases (id == k)) [
      | inl own ↦ rw (lookup-insert id k t (insert q u c), own) has
      | inr other ↦
          rw (lookup-insert id k t (insert q u c), other)
            (elim (Bool-cases (q == k)) [
              | inl here ↦ rw (lookup-insert q k u c, here) made
              | inr there ↦
                  rw (lookup-insert q k u c, there)
                    (elim (Bool-cases (lacks_in machine name (lookup k c))) [
                      | inl one_more ↦
                          let two =
                            count_if_two (lacks_in machine name) n 0 q k c target one_more there
                              (omega arith) (omega arith) (omega arith) (omega arith) in
                          absurd (omega (arith, two, lacks))
                      | inr with_it ↦ IsUniform-Holds (lookup k c) with_it uniform
                    ])
            ])
    ]
