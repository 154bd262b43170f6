-- ===== src/Replica/Leader.antt =====
-- `getLeader` returns, whether or not it has to start an election.
use ece.Prelude.{
  ℕ, ◌+◌, ◌<◌, ◌≡◌, refl, ◌∙◌, true, arith, ◌==◌, Bool-cases, inl, inr, Result, ok, ◌>>=◌,
}
use ece.Int32.{IsNatural}
use ece.Map.{lookup}
use ece.Replica.{
  minus_one, Replica, Cluster, alter, set_leader, set_election, to_int16, ensure_leader,
  start_leader_election, replace_dead, check_leader, get_leader,
}
use ece.Replica.Quiet.{is_ready, runs, runs-alter, idle-le}
use ece.Replica.Election.{Ends, runs-running, ready-runs, start-Ends, contact-Meets}

-- A call that returns and after which the same replicas run.
record Goes (c : Cluster) (m : Result Cluster) : Type 0 where
  after : Cluster
  returns : m ≡ ok after
  same : (k : ℕ) → runs k after ≡ runs k c

module _ (n : ℕ) (b : IsNatural n) where
  abbrev elect : ℕ → Cluster → Result (Cluster × ℕ)
  elect = start_leader_election (n + 1) n

  elect-Ends : (i : ℕ) (c : Cluster) → IsNatural i → runs i c ≡ true → Ends i c (elect i c)
  elect-Ends i c a h =
      start-Ends (n + 1) n i c b a h (omega (arith, idle-le n (alter i (set_election true) c)))

  module _ (i : ℕ) (a : IsNatural i) where
    -- An election and the assignment of its result.
    elected-Goes :
        (c : Cluster)
        → runs i c ≡ true
        → Goes c (elect i c >>= λ x. ok (alter i (set_leader x.1) x.0))
    elected-Goes c h =
        let e = elect-Ends i c a h in
        record {
          after = alter i (set_leader e.leader) e.after;
          returns = rw e.returns refl;
          same = λ k. runs-alter i k _ e.after ∙ e.quiet.same k;
        }

    stays : (c : Cluster) → Goes c (ok c)
    stays c = record { after = c; returns = refl; same = λ k. refl }

    ensure_leader-Goes :
        (r : Replica) (c : Cluster) → runs i c ≡ true → Goes c (ensure_leader elect i r c)
    unfolding ensure_leader
    ensure_leader-Goes r c h = elim (Bool-cases (is_ready r)) [
      | inl ready ↦ rw ready (elected-Goes c h)
      | inr busy ↦ rw busy (stays c)
    ]

    replace_dead-Goes :
        (answers : ℕ) (c : Cluster) → runs i c ≡ true → Goes c (replace_dead elect i answers c)
    unfolding replace_dead
    replace_dead-Goes answers c h = elim (Bool-cases (answers == 0)) [
      | inl dead ↦ rw dead (elected-Goes c h)
      | inr alive ↦ rw alive (stays c)
    ]

    check_leader-Goes :
        (r : Replica) (c : Cluster)
        → ((k : ℕ) → runs k c ≡ true → k < n)
        → runs i c ≡ true
        → Goes c (check_leader elect i r c)
    unfolding check_leader
    check_leader-Goes r c below h = elim (Bool-cases (r.leader == minus_one)) [
      | inl none_known ↦ rw none_known (ensure_leader-Goes r c h)
      | inr known ↦ rw known (elim (Bool-cases (r.leader == r.id)) [
        | inl own ↦ rw own (stays c)
        | inr other ↦
            let met = contact-Meets elect r.leader (lookup r.leader c) c refl (λ ready.
              let up = ready-runs (lookup r.leader c) ready in
              elect-Ends r.leader c (omega (arith, below r.leader up)) up) in
            let last = replace_dead-Goes met.living met.after (met.quiet.same i ∙ h) in
            rw other (record {
              after = last.after;
              returns = rw (met.returns, last.returns) refl;
              same = λ k. last.same k ∙ met.quiet.same k;
            })
      ])
    ]

-- `getLeader` of a running replica returns an answer, in any state of the cluster: also where no
-- leader is known, and where the known one is dead, which start an election. The bound on the
-- depth of the elections is the number of the replicas and one more.
pub get_leader-returns :
    (n i : ℕ) (c : Cluster)
    → IsNatural n
    → ((k : ℕ) → runs k c ≡ true → k < n)
    → runs i c ≡ true
    → (d : Cluster) × (leader : ℕ) × (get_leader (start_leader_election (n + 1) n) i c
        ≡ ok (d, leader))
unfolding get_leader
get_leader-returns n i c b below h =
    let (r, p) = runs-running (lookup i c) h in
    let s = check_leader-Goes n b i (omega (arith, below i h)) r c below h in
    let (t, q) = runs-running (lookup i s.after) (s.same i ∙ h) in
    (s.after, to_int16 t.leader, rw (p, s.returns, q) refl)
