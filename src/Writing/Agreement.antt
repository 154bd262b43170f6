-- ===== src/Writing/Agreement.antt =====
-- The leader's `apply` keeps the replicas in agreement.
use mathlib.Core.Path.{subst}
use ece.Prelude.{
  ℕ, zero, suc, ◌+◌, ◌<◌, ◌≤◌, ◌≡◌, refl, ◌∙◌, Bool, true, false, Option, none, some, arith, ltb,
  ◌==◌, ==→eq, ==_self, Bool-cases, inl, inr, ok,
}
use ece.Map.{lookup, insert, lookup-insert}
use ece.Machines.{Text, Machine, Store, done, enqueue_write}
use ece.Machines.Tables.{same_text_self}
use ece.Placement.{Stores}
use ece.Writing.{told, tell, tell_loop, own_turn, lead, apply_all}
use ece.Writing.Turn.{Agrees, Queued, enqueue-Queued, turn-Agrees, apply_here-Agrees}

module _ (machine : Machine) (name : Text) where
  module _ (operation : Text) (m : machine.State) (b : ℕ) (small : b ≤ 2147483647) where
    -- Before and after the call of the replica.
    abbrev Stage : Bool → Option (Store machine) → Type 0
    Stage true o = Agrees machine name (b + 1) (machine.apply operation m).0 o
    Stage false o = Agrees machine name b m o

    Stage-eq : (p q : Bool) (o : Option (Store machine)) → p ≡ q → Stage p o → Stage q o
    Stage-eq p q o e h = subst (λ (x : Bool). Stage x o) e h

    module _ (n id : ℕ) (leading : Store machine) where
      -- What holds before the round for replica i.
      record Told (i : ℕ) (c : Stores machine) : Type 0 where
        own : lookup id c ≡ some leading
        others : (k : ℕ) → k < n → (k == id) ≡ false → Stage (ltb k i) (lookup k c)

      skip-Told : (i : ℕ) (c : Stores machine) → (i == id) ≡ true → Told i c → Told (i + 1) c
      skip-Told i c h t = record {
        own = t.own;
        others = λ k l o.
            Stage-eq (ltb k i) (ltb k (i + 1)) (lookup k c) (ground (arith, ==→eq i id))
              (t.others k l o);
      }

      -- One replica has changed its stage, the others not.
      change-Told :
          (i : ℕ) (c d : Stores machine)
          → (i == id) ≡ false
          → Told i c
          → ((k : ℕ) → (i == k) ≡ false → lookup k d ≡ lookup k c)
          → Agrees machine name (b + 1) (machine.apply operation m).0 (lookup i d)
          → Told (i + 1) d
      change-Told i c d o t same a = record {
        own = same id o ∙ t.own;
        others = λ k l p. elim (Bool-cases (i == k)) [
          | inl here ↦
              let e = ==→eq i k here in
              subst (λ (j : ℕ). Stage (ltb j (i + 1)) (lookup j d)) e
                (Stage-eq true (ltb i (i + 1)) (lookup i d) (ground arith) a)
          | inr other ↦
              Stage-eq (ltb k i) (ltb k (i + 1)) (lookup k d) (ground arith)
                (rw (same k other) (t.others k l p))
        ];
      }

      tell-Told :
          (i : ℕ) (c : Stores machine) (o : Option (Store machine))
          → lookup i c ≡ o
          → (i == id) ≡ false
          → i < n
          → Told i c
          → (d : Stores machine) × (tell machine name operation i c o ≡ ok d) × Told (i + 1) d
      unfolding tell told
      tell-Told i c none e h l t = (c, refl, change-Told i c c h t (λ k p. refl) (rw e tt))
      tell-Told i c (some s) e h l t =
          let start : Agrees machine name b m (some s) =
            rw e at (Stage-eq (ltb i i) false (lookup i c) (ground arith) (t.others i l h)) in
          let (u, f, a) = apply_here-Agrees machine name operation m b small s start in
          (
            insert i u c,
            rw f refl,
            change-Told i c (insert i u c) h t (λ k p. lookup-insert i k u c ∙ rw p refl)
                (rw (lookup-insert i i u c, ==_self i) a),
          )

      tell_loop-Told :
          (rounds i : ℕ) (c : Stores machine)
          → i + rounds ≤ n
          → Told i c
          → (d : Stores machine) × (tell_loop machine name operation rounds i id c ≡ ok d)
            × Told (i + rounds) d
      unfolding tell_loop
      tell_loop-Told zero i c l t = (c, refl, subst (λ (j : ℕ). Told j c) (omega arith) t)
      tell_loop-Told (suc rounds) i c l t = elim (Bool-cases (i == id)) [
        | inl own ↦
            let (d, e, u) = tell_loop-Told rounds (i + 1) c (omega arith) (skip-Told i c own t) in
            (d, rw (own, e) refl, subst (λ (j : ℕ). Told j d) (omega arith) u)
        | inr other ↦
            let (x, f, s) = tell-Told i c (lookup i c) refl other (omega arith) t in
            let (d, e, u) = tell_loop-Told rounds (i + 1) x (omega arith) s in
            (d, rw (other, f, e) refl, subst (λ (j : ℕ). Told j d) (omega arith) u)
      ]

      -- The leader runs, and the replicas that run agree on the machine.
      own_turn-Agrees :
          (c : Stores machine)
          → id < n
          → Queued machine name operation m b small leading
          → Told n c
          → (d : Stores machine) × (own_turn machine name operation id c (lookup id c)
              ≡ ok (d, done (machine.apply operation m).1))
            × ((s : Store machine) × (lookup id d ≡ some s))
            × ((k : ℕ)
                → k < n
                → Agrees machine name (b + 1) (machine.apply operation m).0 (lookup k d))
      unfolding own_turn
      own_turn-Agrees c below q t =
          let (u, e, a) = turn-Agrees machine name operation m b small leading q in
          (
            insert id u c,
            rw (t.own, e) refl,
            (u, rw (lookup-insert id id u c, ==_self id) refl),
            λ k l. rw (lookup-insert id k u c) (elim (Bool-cases (id == k)) [
              | inl here ↦ rw here a
              | inr other ↦ rw other (
                  Stage-eq (ltb k n) true (lookup k c) (ground arith) (t.others k l (ground arith)))
            ]),
          )

    lead_returns :
        (n id : ℕ) (s u : Store machine) (c x d : Stores machine) (result : Text)
        → lookup id c ≡ some s
        → enqueue_write machine name operation s ≡ done u
        → Queued machine name operation m b small u
        → tell_loop machine name operation n 0 id (insert id u c) ≡ ok x
        → own_turn machine name operation id x (lookup id x) ≡ ok (d, done result)
        → apply_all machine name operation n id c (lookup id c) ≡ ok (d, done result)
    unfolding apply_all lead
    lead_returns n id s u c x d result h e q f g =
        rw (h, e, q.queue, same_text_self operation, f, g) refl

  pub record IsReplicated (n id b : ℕ) (m : machine.State) (c : Stores machine) : Type 0 where
    pub below : id < n
    pub leads : (s : Store machine) × (lookup id c ≡ some s)
    pub agree : (k : ℕ) → k < n → Agrees machine name b m (lookup k c)

  -- Where the leader runs, and the replicas that run have the machine in the same state and no
  -- request for it, the leader's `apply` answers as the machine does in that state, and leaves all
  -- of them with its next state and no request again. (The loads are away from the largest int.)
  pub apply_all-agrees :
      (n id b : ℕ) (operation : Text) (m : machine.State) (c : Stores machine)
      → b ≤ 2147483647
      → IsReplicated n id b m c
      → (d : Stores machine) × (apply_all machine name operation n id c (lookup id c)
          ≡ ok (d, done (machine.apply operation m).1))
        × IsReplicated n id (b + 1) (machine.apply operation m).0 d
  apply_all-agrees n id b operation m c small r =
      let (s, h) = r.leads in
      let (u, e, q) =
        enqueue-Queued machine name operation m b small s (rw h at (r.agree id r.below)) in
      let start : Told operation m b small n id u 0 (insert id u c) = record {
        own = rw (lookup-insert id id u c, ==_self id) refl;
        others = λ k l o.
            let other : (id == k) ≡ false = ground arith in
            Stage-eq operation m b small false (ltb k 0) (lookup k (insert id u c)) (ground arith)
              (rw (lookup-insert id k u c, other) (r.agree k l));
      } in
      let (x, f, t) =
        tell_loop-Told operation m b small n id u n 0 (insert id u c) (omega arith) start in
      let (d, g, leads, agree) =
        own_turn-Agrees operation m b small n id u x r.below q
          (subst (λ (j : ℕ). Told operation m b small n id u j x) (omega arith) t) in
      (
        d,
        lead_returns operation m b small n id s u c x d _ h e q f g,
        record { below = r.below; leads = leads; agree = agree },
      )
