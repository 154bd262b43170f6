-- ===== src/Placement/Create.antt =====
-- The outcome of the leader's `create`.
use ece.Prelude.{
  ℕ, zero, suc, ◌+◌, ◌<◌, ◌≤◌, ◌≡◌, refl, ◌∙◌, Bool, true, false, Option, none, some, arith, ltb,
  ◌==◌, ==→eq, if◌then◌else◌, Bool-cases, inl, inr, Result, ok, fault, not_running,
}
use ece.Int32.{IsNatural}
use ece.Map.{lookup}
use ece.Machines.{already_exists, ErrorType, Text, Machine, Store}
use ece.Placement.{
  Survey, no_survey, int_max, Stores, survey_loop, place, after_place, create_loop, verdict_of,
  create_copies,
}
use ece.Placement.Least.{
  holders, lacking, IsSmall, nothing, survey_loop-count, survey_loop-finds, survey_loop-idle,
}
use ece.Placement.Copies.{IsUniform, runs_in, Smaller, Round, place-Round}
use ece.Replica.{minus_one}

module _ (machine : Machine) (name initial : Text) (n id : ℕ) (nat : IsNatural n) where
  abbrev survey : Stores machine → Survey
  survey c = survey_loop machine n 0 name c no_survey

  -- What enough rounds make, where enough replicas run.
  pub record Made (c : Stores machine) (still : Bool)
      (r : Result (Stores machine × Bool × Option ErrorType)) : Type 0 where
    pub after : Stores machine
    pub preexisting : Bool
    pub returns : r ≡ ok (after, preexisting, none)
    pub count : holders machine name n 0 after ≡ 3
    cleared : still ≡ false → preexisting ≡ false
    kept : 0 < holders machine name n 0 c → preexisting ≡ still
    pub fresh : holders machine name n 0 c ≡ 0 → preexisting ≡ false
    pub total :
        holders machine name n 0 after + lacking machine name n 0 after
        ≡ holders machine name n 0 c + lacking machine name n 0 c
    pub same : (j : ℕ) → runs_in machine name (lookup j after) ≡ runs_in machine name (lookup j c)
    pub uniform :
        (d : ℕ)
        → ((j : ℕ) → IsUniform machine name d (machine.make initial) (lookup j c))
        → (j : ℕ) → IsUniform machine name d (machine.make initial) (lookup j after)

  survey-count : (c : Stores machine) → (survey c).count ≡ holders machine name n 0 c
  survey-count c = omega (arith, survey_loop-count machine name n 0 c no_survey)

  IsSmall-le :
      (b d : ℕ) (o : Option (Store machine))
      → b ≤ d
      → IsSmall machine name b o
      → IsSmall machine name d o
  IsSmall-le b d none l h = tt
  IsSmall-le b d (some s) l h = omega arith

  -- The first round, where a replica lacks the machine.
  first_round :
      (b : ℕ) (c : Stores machine)
      → 0 < lacking machine name n 0 c
      → b ≤ int_max
      → Smaller machine name b c
      → Round machine name initial n b c (
          place machine
            ((survey c).least_index == id)
            (survey c).least_index
            name
            initial
            (lookup (survey c).least_index c)
            c)
  first_round b c some_lack l h =
      let found =
        survey_loop-finds machine name n 0 n c no_survey (omega arith)
          (λ k. IsSmall-le b int_max (lookup k c) l (h k)) some_lack (nothing refl refl) in
      place-Round machine name _ _ n b initial _ c nat found.0 l refl found.1 h

  abbrev after_survey : Stores machine → Bool → Bool
  after_survey c still = if (survey c).count == 0 then false else still

  round_returns :
      (rounds b : ℕ) (still : Bool) (c : Stores machine)
      → holders machine name n 0 c < 3
      → (r : Round machine name initial n b c (
          place machine
            ((survey c).least_index == id)
            (survey c).least_index
            name
            initial
            (lookup (survey c).least_index c)
            c))
      → create_loop machine (suc rounds) n id name initial still c
        ≡ create_loop machine rounds n id name initial (after_survey c still) r.after
  unfolding create_loop after_place
  round_returns rounds b still c few r =
      let more : ltb (survey c).count 3 ≡ true = ground (arith, survey-count c) in
      rw (more, r.returns) refl

  -- Three copies are there already.
  full_Made :
      (rounds : ℕ) (still : Bool) (c : Stores machine)
      → holders machine name n 0 c ≡ 3
      → Made c still (create_loop machine (suc rounds) n id name initial still c)
  unfolding create_loop
  full_Made rounds still c full =
      let enough : ltb (survey c).count 3 ≡ false = ground (arith, survey-count c) in
      let held : ((survey c).count == 0) ≡ false = ground (arith, survey-count c) in
      record {
        after = c;
        preexisting = still;
        returns = rw (enough, held) refl;
        count = full;
        cleared = λ e. e;
        kept = λ e. refl;
        fresh = λ e. absurd (omega arith);
        total = refl;
        same = λ j. refl;
        uniform = λ d u. u;
      }

  pub create_loop-Made :
      (rounds b : ℕ) (still : Bool) (c : Stores machine)
      → holders machine name n 0 c ≤ 3
      → 3 ≤ rounds + holders machine name n 0 c
      → 3 ≤ holders machine name n 0 c + lacking machine name n 0 c
      → b + rounds ≤ int_max
      → Smaller machine name b c
      → Made c still (create_loop machine rounds n id name initial still c)
  create_loop-Made zero b still c few rest enough l h =
      unfold create_loop in
      record {
        after = c;
        preexisting = still;
        returns = refl;
        count = omega arith;
        cleared = λ e. e;
        kept = λ e. refl;
        fresh = λ e. absurd (omega arith);
        total = refl;
        same = λ j. refl;
        uniform = λ d u. u;
      }
  create_loop-Made (suc rounds) b still c few rest enough l h =
      elim (Bool-cases (holders machine name n 0 c == 3)) [
        | inl full ↦ full_Made rounds still c (==→eq _ 3 full)
        | inr fewer ↦
            let below : holders machine name n 0 c < 3 = ground arith in
            let r = first_round b c (omega arith) (omega arith) h in
            let more =
              create_loop-Made rounds (b + 1) (after_survey c still) r.after
                (omega (arith, r.copies)) (omega (arith, r.copies))
                (omega (arith, r.copies, r.left)) (omega arith) r.small in
            let seen = survey-count c in
            record {
              after = more.after;
              preexisting = more.preexisting;
              returns = round_returns rounds b still c below r ∙ more.returns;
              count = more.count;
              cleared = λ e. more.cleared (rw e (ground arith));
              kept = λ e. more.kept (omega (arith, r.copies)) ∙ ground arith;
              fresh = λ e. more.cleared (ground arith);
              total = omega (arith, more.total, r.copies, r.left);
              same = λ j. more.same j ∙ r.same j;
              uniform = λ d u. more.uniform d (r.uniform d u);
            }
      ]

  create_loop-fails :
      (rounds b : ℕ) (still : Bool) (c : Stores machine)
      → lacking machine name n 0 c < rounds
      → holders machine name n 0 c + lacking machine name n 0 c < 3
      → b + rounds ≤ int_max
      → Smaller machine name b c
      → lookup minus_one c ≡ none
      → create_loop machine rounds n id name initial still c ≡ fault not_running
  unfolding create_loop place
  create_loop-fails zero b still c few few' l h a = absurd (omega arith)
  create_loop-fails (suc rounds) b still c few few' l h a =
      elim (Bool-cases (lacking machine name n 0 c == 0)) [
        | inl none_lack ↦
            let more : ltb (survey c).count 3 ≡ true = ground (arith, survey-count c) in
            let lost : (survey c).least_index ≡ minus_one =
              survey_loop-idle machine name n 0 c no_survey (==→eq _ 0 none_lack) in
            rw (more, lost, a) refl
        | inr some_lack ↦
            let r = first_round b c (ground arith) (omega arith) h in
            round_returns rounds b still c (omega arith) r
            ∙ create_loop-fails rounds (b + 1) (after_survey c still) r.after
                (omega (arith, r.left)) (omega (arith, r.left, r.copies)) (omega arith) r.small
                (r.absent a)
      ]

-- Where at least three of the replicas run, and at most three of them have the machine, the
-- leader's `create` ends with exactly three copies. It throws that the machine exists just where
-- there was a copy before. (The counters of the replicas are away from the largest int.)
pub create_copies-three :
    (machine : Machine) (name initial : Text) (n id : ℕ) (c : Stores machine)
    → IsNatural n
    → Smaller machine name 2147483644 c
    → holders machine name n 0 c ≤ 3
    → 3 ≤ holders machine name n 0 c + lacking machine name n 0 c
    → (d : Stores machine) × (create_copies machine n id name initial c
        ≡ ok (d, if holders machine name n 0 c == 0 then none else some already_exists))
      × (holders machine name n 0 d ≡ 3)
unfolding create_copies verdict_of
create_copies-three machine name initial n id c nat h few enough =
    let m =
      create_loop-Made machine name initial n id nat 3 2147483644 true c few (omega arith) enough
        (omega arith) h in
    (
      m.after,
      rw m.returns (elim (Bool-cases (holders machine name n 0 c == 0)) [
        | inl new ↦ rw (new, m.fresh (==→eq _ 0 new)) refl
        | inr old ↦ rw (old, m.kept (ground arith)) refl
      ]),
      m.count,
    )

-- Where fewer than three of the replicas run, the leader's `create` fails on a call of replica -1,
-- whether or not the machine exists.
pub create_copies-few :
    (machine : Machine) (name initial : Text) (n id : ℕ) (c : Stores machine)
    → IsNatural n
    → Smaller machine name 2147483644 c
    → lookup minus_one c ≡ none
    → holders machine name n 0 c + lacking machine name n 0 c < 3
    → create_copies machine n id name initial c ≡ fault not_running
unfolding create_copies
create_copies-few machine name initial n id c nat h a few =
    rw
      (create_loop-fails machine name initial n id nat 3 2147483644 true c (omega arith) few
        (omega arith) h a)
      refl
