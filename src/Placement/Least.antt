-- ===== src/Placement/Least.antt =====
-- What the leader's look around finds.
use ece.Prelude.{
  ℕ, zero, suc, ◌+◌, ◌<◌, ◌≤◌, ◌≡◌, refl, ◌∙◌, Bool, true, false, not, Option, none, some, arith,
  if◌then◌else◌, Bool-cases, inl, inr,
}
use ece.Int32.{slt}
use ece.Replica.{to_int16}
use ece.Replica.Loads.{slt-to_int16}
use ece.Map.{lookup}
use ece.Machines.{Text, Machine, Store, state_exists}
use ece.Placement.{Survey, int_max, Stores, look, survey_loop}
use ece.Replica.{minus_one}

module _ (machine : Machine) (name : Text) where
  abbrev pub has_in : Option (Store machine) → Bool
  has_in none = false
  has_in (some s) = state_exists machine name s

  abbrev pub lacks_in : Option (Store machine) → Bool
  lacks_in none = false
  lacks_in (some s) = not (state_exists machine name s)

  -- How many of the replicas from i on have the machine, and how many run without it.
  abbrev pub count_if : (Option (Store machine) → Bool) → ℕ → ℕ → Stores machine → ℕ
  count_if f zero i c = 0
  count_if f (suc rounds) i c = (if f (lookup i c) then 1 else 0) + count_if f rounds (i + 1) c

  abbrev pub holders : ℕ → ℕ → Stores machine → ℕ
  holders = count_if has_in

  abbrev pub lacking : ℕ → ℕ → Stores machine → ℕ
  lacking = count_if lacks_in

  abbrev pub IsSmall : ℕ → Option (Store machine) → Type 0
  IsSmall b none = Unit
  IsSmall b (some s) = s.mem_utilization < b

  look-count :
      (i : ℕ) (o : Option (Store machine)) (v : Survey)
      → (look machine name i o v).count ≡ v.count + (if has_in o then 1 else 0)
  unfolding look
  look-count i none v = omega arith
  look-count i (some s) v = ground arith

  pub survey_loop-count :
      (rounds i : ℕ) (c : Stores machine) (v : Survey)
      → (survey_loop machine rounds i name c v).count ≡ v.count + holders rounds i c
  unfolding survey_loop
  survey_loop-count zero i c v = omega arith
  survey_loop-count (suc rounds) i c v = omega (
    arith,
    survey_loop-count rounds (i + 1) c (look machine name i (lookup i c) v),
    look-count i (lookup i c) v,
  )

  -- Either nothing is found so far, or a replica below n that lacks the machine.
  pub data Finding (n : ℕ) (c : Stores machine) (v : Survey) : Type 0 where
    nothing : v.least_index ≡ minus_one → v.least ≡ int_max → Finding n c v
    something : v.least_index < n → lacks_in (lookup v.least_index c) ≡ true → Finding n c v

  look-lacks :
      (i n : ℕ) (o : Option (Store machine)) (c : Stores machine) (v : Survey)
      → lookup i c ≡ o
      → i < n
      → Finding n c v
      → Finding n c (look machine name i o v)
  unfolding look
  look-lacks i n none c v e b f = f
  look-lacks i n (some s) c v e b f = elim (Bool-cases (state_exists machine name s)) [
    | inl has ↦ rw has (recount f)
    | inr lacks ↦ elim (Bool-cases (slt (to_int16 s.mem_utilization) v.least)) [
      | inl less ↦ rw (lacks, less) (something b (rw e (rw lacks refl)))
      | inr more ↦ rw (lacks, more) f
    ]
  ]
    where
      recount : Finding n c v → Finding n c (record v { count = v.count + 1 })
      recount (nothing p q) = nothing p q
      recount (something p q) = something p q

  pub survey_loop-Finding :
      (rounds i n : ℕ) (c : Stores machine) (v : Survey)
      → i + rounds ≤ n
      → Finding n c v
      → Finding n c (survey_loop machine rounds i name c v)
  unfolding survey_loop
  survey_loop-Finding zero i n c v b f = f
  survey_loop-Finding (suc rounds) i n c v b f =
      survey_loop-Finding rounds (i + 1) n c _ (omega arith)
        (look-lacks i n (lookup i c) c v refl (omega arith) f)

  -- Is something found?
  abbrev pub IsFound : ℕ → Stores machine → Survey → Type 0
  IsFound n c v = (v.least_index < n) × (lacks_in (lookup v.least_index c) ≡ true)

  look-keeps :
      (i n : ℕ) (o : Option (Store machine)) (c : Stores machine) (v : Survey)
      → lookup i c ≡ o
      → i < n
      → IsFound n c v
      → IsFound n c (look machine name i o v)
  unfolding look
  look-keeps i n none c v e b f = f
  look-keeps i n (some s) c v e b f = elim (Bool-cases (state_exists machine name s)) [
    | inl has ↦ rw has f
    | inr lacks ↦ elim (Bool-cases (slt (to_int16 s.mem_utilization) v.least)) [
      | inl less ↦ rw (lacks, less) (b, rw e (rw lacks refl))
      | inr more ↦ rw (lacks, more) f
    ]
  ]

  survey_loop-keeps :
      (rounds i n : ℕ) (c : Stores machine) (v : Survey)
      → i + rounds ≤ n
      → IsFound n c v
      → IsFound n c (survey_loop machine rounds i name c v)
  unfolding survey_loop
  survey_loop-keeps zero i n c v b f = f
  survey_loop-keeps (suc rounds) i n c v b f =
      survey_loop-keeps rounds (i + 1) n c _ (omega arith)
        (look-keeps i n (lookup i c) c v refl (omega arith) f)

  look-finds :
      (i n : ℕ) (o : Option (Store machine)) (c : Stores machine) (v : Survey)
      → lookup i c ≡ o
      → i < n
      → IsSmall int_max o
      → lacks_in o ≡ true
      → Finding n c v
      → IsFound n c (look machine name i o v)
  unfolding look
  look-finds i n none c v e b m l f = cc
  look-finds i n (some s) c v e b m l (something p q) = look-keeps i n (some s) c v e b (p, q)
  look-finds i n (some s) c v e b m l (nothing p q) =
      let lacks : state_exists machine name s ≡ false = ground arith in
      let less : slt (to_int16 s.mem_utilization) v.least ≡ true =
        slt-to_int16 s.mem_utilization v.least q in
      rw (lacks, less) (b, rw e l)

  -- Where a running replica lacks the machine, the look around finds one that does.
  pub survey_loop-finds :
      (rounds i n : ℕ) (c : Stores machine) (v : Survey)
      → i + rounds ≤ n
      → ((k : ℕ) → IsSmall int_max (lookup k c))
      → 0 < lacking rounds i c
      → Finding n c v
      → IsFound n c (survey_loop machine rounds i name c v)
  unfolding survey_loop
  survey_loop-finds zero i n c v b m l f = absurd (omega arith)
  survey_loop-finds (suc rounds) i n c v b m l f = elim (Bool-cases (lacks_in (lookup i c))) [
    | inl lacks ↦
        survey_loop-keeps rounds (i + 1) n c _ (omega arith)
          (look-finds i n (lookup i c) c v refl (omega arith) (m i) lacks f)
    | inr holds ↦
        survey_loop-finds rounds (i + 1) n c _ (omega arith) m (omega (arith, rw holds at l))
          (look-lacks i n (lookup i c) c v refl (omega arith) f)
  ]

  look-idle :
      (i : ℕ) (o : Option (Store machine)) (v : Survey)
      → lacks_in o ≡ false
      → (look machine name i o v).least_index ≡ v.least_index
  unfolding look
  look-idle i none v h = refl
  look-idle i (some s) v h = ground arith

  -- Where none does, it finds nothing.
  pub survey_loop-idle :
      (rounds i : ℕ) (c : Stores machine) (v : Survey)
      → lacking rounds i c ≡ 0
      → (survey_loop machine rounds i name c v).least_index ≡ v.least_index
  unfolding survey_loop
  survey_loop-idle zero i c v h = refl
  survey_loop-idle (suc rounds) i c v h = elim (Bool-cases (lacks_in (lookup i c))) [
    | inl lacks ↦ absurd (omega (arith, rw lacks at h))
    | inr holds ↦
        survey_loop-idle rounds (i + 1) c _ (omega (arith, rw holds at h))
        ∙ look-idle i (lookup i c) v holds
  ]
