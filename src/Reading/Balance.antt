-- ===== src/Reading/Balance.antt =====
-- The reader that the leader chooses is one of those that answer with the least load.
use mathlib.Core.Path.{subst}
use native.Mathlib.Nat.{add-zero}
use ece.Prelude.{
  ℕ, zero, suc, ◌+◌, ◌<◌, ◌≡◌, refl, true, false, ◌&&◌, ◌⊎◌, inl, inr, Option, none, some, arith,
  ◌==◌, ==→eq, Bool-cases,
}
use ece.Int32.{slt, slt_irrefl, slt_asymm, not_slt_trans}
use ece.Replica.{to_int16}
use ece.Replica.Loads.{slt-to_int16}
use ece.Map.{lookup}
use ece.Machines.{Text, Machine, Store, done, state_exists}
use ece.Machines.Tables.{done-injective}
use ece.Placement.{int_max, Stores}
use ece.Reading.{Choice, no_choice, consider, consider_loop, choose_reader}

module _ (machine : Machine) (name : Text) where
  -- The replica does not have the machine, or answers with a load that is not below the bound.
  abbrev pub IsBusier : ℕ → Option (Store machine) → Type 0
  IsBusier b none = Unit
  IsBusier b (some s) = (state_exists machine name s && slt (to_int16 s.bw_utilization) b) ≡ false

  -- The replica has the machine, and answers with the load b.
  abbrev pub IsReader : ℕ → Option (Store machine) → Type 0
  IsReader b none = ⊥
  IsReader b (some s) = (state_exists machine name s ≡ true) × (to_int16 s.bw_utilization ≡ b)

  -- What holds before the round for replica i.
  record IsBest (i : ℕ) (c : Stores machine) (v : Choice) : Type 0 where
    chosen : ((v.count ≡ 0) × (v.least ≡ int_max)) ⊎ IsReader v.least (lookup v.least_index c)
    lowest : (k : ℕ) → k < i → IsBusier v.least (lookup k c)

  IsBusier-lower :
      (b d : ℕ) (o : Option (Store machine)) → slt d b ≡ true → IsBusier b o → IsBusier d o
  IsBusier-lower b d none h p = tt
  IsBusier-lower b d (some s) h p =
      ground (arith, not_slt_trans d b (to_int16 s.bw_utilization), slt_asymm d b h)

  -- One index more.
  up_to :
      (i b : ℕ) (c : Stores machine)
      → ((k : ℕ) → k < i → IsBusier b (lookup k c))
      → IsBusier b (lookup i c)
      → (k : ℕ) → k < i + 1
      → IsBusier b (lookup k c)
  up_to i b c h p k l = elim (Bool-cases (k == i)) [
    | inl same ↦ rw (==→eq k i same) p
    | inr other ↦ h k (ground arith)
  ]

  consider-IsBest :
      (i : ℕ) (o : Option (Store machine)) (c : Stores machine) (v : Choice)
      → lookup i c ≡ o
      → IsBest i c v
      → IsBest (i + 1) c (consider machine name i o v)
  unfolding consider
  consider-IsBest i none c v e p = record {
    chosen = p.chosen;
    lowest = up_to i v.least c p.lowest (rw e tt);
  }
  consider-IsBest i (some s) c v e p = elim (Bool-cases (state_exists machine name s)) [
    | inl has ↦ elim (Bool-cases (slt (to_int16 s.bw_utilization) v.least)) [
      | inl less ↦
          rw (has, less)
            (record {
              chosen = inr (rw e (has, refl));
              lowest =
                  up_to i (to_int16 s.bw_utilization) c
                    (λ k l.
                      IsBusier-lower v.least (to_int16 s.bw_utilization) (lookup k c) less
                        (p.lowest k l))
                    (rw e (rw (has, slt_irrefl (to_int16 s.bw_utilization)) refl));
            })
      | inr more ↦
          rw (has, more)
            (record {
              chosen = elim p.chosen [
                | inl first ↦ cc (slt-to_int16 s.bw_utilization v.least first.1, more)
                | inr reader ↦ inr reader
              ];
              lowest = up_to i v.least c p.lowest (rw e (rw (has, more) refl));
            })
    ]
    | inr lacks ↦
        rw lacks
          (record { chosen = p.chosen; lowest = up_to i v.least c p.lowest (rw e (rw lacks refl)) })
  ]

  consider_loop-IsBest :
      (rounds i : ℕ) (c : Stores machine) (v : Choice)
      → IsBest i c v
      → IsBest (i + rounds) c (consider_loop machine name rounds i c v)
  unfolding consider_loop
  consider_loop-IsBest zero i c v p = rw add-zero p
  consider_loop-IsBest (suc rounds) i c v p =
      subst
        (λ (m : ℕ).
          IsBest m c
            (consider_loop machine name rounds (i + 1) c (consider machine name i (lookup i c) v)))
        (omega arith)
        (consider_loop-IsBest rounds (i + 1) c _ (consider-IsBest i (lookup i c) c v refl p))

  -- The choice of a reader among n replicas: the chosen replica has the machine, and no replica that
  -- has it answers with a smaller load. (The answer is an `int16_t`, which is negative for the loads
  -- from 32768 to 65535.)
  pub choose_reader-IsReader :
      (garbage n : ℕ) (c : Stores machine) (v : Choice)
      → choose_reader machine name garbage n c ≡ done v
      → IsReader v.least (lookup v.least_index c)
        × ((k : ℕ) → k < n → IsBusier v.least (lookup k c))
  unfolding choose_reader
  choose_reader-IsReader garbage n c v h =
      let w = consider_loop machine name n 0 c (no_choice garbage) in
      let best =
        consider_loop-IsBest n 0 c (no_choice garbage)
          (record { chosen = inl (refl, refl); lowest = λ k l. absurd (omega arith) }) in
      elim (Bool-cases (w.count == 0)) [
        | inl none_has ↦ cc (rw none_has at h)
        | inr some_has ↦
            subst
              (λ (x : Choice).
                IsReader x.least (lookup x.least_index c)
                × ((k : ℕ) → k < n → IsBusier x.least (lookup k c)))
              (done-injective (rw some_has at h))
              (
                elim best.chosen [ inl first ↦ absurd (ground arith) | inr reader ↦ reader ],
                λ k l. best.lowest k (omega arith),
              )
      ]
