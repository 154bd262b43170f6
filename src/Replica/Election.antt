-- ===== src/Replica/Election.antt =====
-- Elections start each other, but only ready replicas do, and a replica in an election is not ready:
-- so an election always comes to an end.
use ece.Prelude.{
  ◌||◌, ◌&&◌, not, ℕ, zero, suc, ◌+◌, ◌/◌, ◌%◌, ◌<◌, ◌≤◌, ◌≡◌, refl, ◌∙◌, true, false, Option, none,
  some, arith, ltb, ◌==◌, if◌then◌else◌, Bool-cases, inl, inr, ==→eq, ==_self, Result, ok,
}
use ece.Int32.{word, IsNatural, sle_refl}
use ece.Map.{lookup}
use ece.Replica.{
  minus_one, Replica, Tally, Cluster, alter, promise_loop, campaign, ballot, set_proposal_number,
  set_leader, set_election, running, to_int16, ensure_leader, contact, contact_loop,
  start_leader_election,
}
use ece.Replica.Ballot.{changed, lookup-alter}
use ece.Replica.Quiet.{
  is_ready, ready_in, ready_of, runs_in, runs, CalmBut, Calm, Calm-refl, Calm-join, CalmBut-join,
  Calm-CalmBut, alter-Calm, alter-CalmBut, idle, idle-le, idle-Calm, idle-drop,
}
use ece.Replica.Calm.{promise_loop-Calm, promise_loop-value, campaign-CalmBut, not_minus_one}

-- An election of replica `id` that returns: the others get no readier by it.
pub record Ends (id : ℕ) (c : Cluster) (m : Result (Cluster × ℕ)) : Type 0 where
  pub after : Cluster
  pub leader : ℕ
  pub returns : m ≡ ok (after, leader)
  pub quiet : CalmBut id c after

pub runs-running : (o : Option Replica) → runs_in o ≡ true → (r : Replica) × (running o ≡ ok r)
unfolding running
runs-running none h = cc
runs-running (some r) h = (r, refl)

-- What the proposer does once it has the promises.
abbrev decided : ℕ → ℕ → ℕ → Cluster × Tally → Cluster
decided living id n (c, t) = alter id (set_election false) (
    if ltb (living / 2) t.promised_count
    then campaign living id n t.highest_accepted_value c
    else c)

decided-CalmBut :
    (living id n : ℕ) (c : Cluster) (t : Tally)
    → (t.highest_accepted_value == minus_one) ≡ false
    → CalmBut id c (decided living id n (c, t))
decided-CalmBut living id n c t h = elim (Bool-cases (ltb (living / 2) t.promised_count)) [
  | inl many ↦ rw many (
      CalmBut-join (campaign-CalmBut living id n t.highest_accepted_value c h)
        (alter-CalmBut id _ _))
  | inr few ↦ rw few (alter-CalmBut id _ c)
]

ballot-Ends :
    (living id : ℕ) (c : Cluster) → IsNatural id → runs id c ≡ true → Ends id c (ballot living id c)
unfolding ballot
ballot-Ends living id c b h =
    let (r, p) = runs-running (lookup id c) h in
    let n = (r.proposal_number + living) % word in
    let own = alter id (set_proposal_number n) c in
    let start : Tally = record { promised_count = 0; highest_accepted_value = id } in
    let asked = promise_loop living 0 id n own start in
    let quiet : CalmBut id c (decided living id n asked) =
      CalmBut-join (alter-CalmBut id (set_proposal_number n) c) (
        CalmBut-join (Calm-CalmBut id (promise_loop-Calm living 0 id n own start)) (
          decided-CalmBut living id n asked.0 asked.1
            (not_minus_one id _ b (promise_loop-value living 0 id n own start (sle_refl id))))) in
    let (s, q) = runs-running (lookup id (decided living id n asked)) (quiet.same id ∙ h) in
    record {
      after = decided living id n asked;
      leader = to_int16 s.leader;
      returns = rw (p, q) refl;
      quiet = quiet;
    }

-- A round of calls that returns.
pub record Meets (c : Cluster) (m : Result (Cluster × ℕ)) : Type 0 where
  pub after : Cluster
  pub living : ℕ
  pub returns : m ≡ ok (after, living)
  pub quiet : Calm c after

-- An election of a ready replica, and the assignment of its result.
Ends-Calm :
    (i leader : ℕ) (c d : Cluster)
    → ready_of i c ≡ true
    → CalmBut i c d
    → Calm c (alter i (set_leader leader) d)
Ends-Calm i leader c d h p =
    let all = CalmBut-join p (alter-CalmBut i (set_leader leader) d) in
    record {
      calm = λ k e. elim (Bool-cases (i == k)) [
        | inl own ↦ rw (==→eq i k own) at h
        | inr other ↦ all.calm k other e
      ];
      same = all.same;
    }

module _ (elect : ℕ → Cluster → Result (Cluster × ℕ)) where
  pub contact-Meets :
      (i : ℕ) (o : Option Replica) (c : Cluster)
      → lookup i c ≡ o
      → (ready_of i c ≡ true → Ends i c (elect i c))
      → Meets c (contact elect i o c)
  unfolding contact ensure_leader
  contact-Meets i none c e h = record { after = c; living = 0; returns = refl; quiet = Calm-refl c }
  contact-Meets i (some r) c e h = elim (Bool-cases (is_ready r)) [
    | inl ready ↦
        let f : ready_of i c ≡ true = rw e ready in
        let s = h f in
        record {
          after = alter i (set_leader s.leader) s.after;
          living = 1;
          returns = rw (ready, s.returns) refl;
          quiet = Ends-Calm i s.leader c s.after f s.quiet;
        }
    | inr busy ↦ record { after = c; living = 1; returns = rw busy refl; quiet = Calm-refl c }
  ]

  contact_loop-Meets :
      (n fuel : ℕ)
      → ((i : ℕ) (c : Cluster)
          → i < n
          → ready_of i c ≡ true
          → idle n c ≤ fuel
          → Ends i c (elect i c))
      → (rounds i : ℕ) (c : Cluster) → i + rounds ≤ n
      → idle n c ≤ fuel
      → Meets c (contact_loop elect rounds i c)
  unfolding contact_loop
  contact_loop-Meets n fuel h zero i c b f = record {
    after = c;
    living = 0;
    returns = refl;
    quiet = Calm-refl c;
  }
  contact_loop-Meets n fuel h (suc rounds) i c b f =
      let one = contact-Meets i (lookup i c) c refl (λ r. h i c (omega arith) r f) in
      let more =
        contact_loop-Meets n fuel h rounds (i + 1) one.after (omega arith)
          (omega (arith, idle-Calm n c one.after one.quiet)) in
      record {
        after = more.after;
        living = one.living + more.living;
        returns = rw (one.returns, more.returns) refl;
        quiet = Calm-join one.quiet more.quiet;
      }

enter-Calm : (id : ℕ) (c : Cluster) → Calm c (alter id (set_election true) c)
enter-Calm id c = alter-Calm id (set_election true) c (λ r. ground arith)

not_ready_in : (o : Option Replica) → ready_in (changed (set_election true) o) ≡ false
not_ready_in none = refl
not_ready_in (some r) = ground arith

enter-busy : (id : ℕ) (c : Cluster) → ready_of id (alter id (set_election true) c) ≡ false
enter-busy id c =
    rw (lookup-alter id id (set_election true) c, ==_self id) (not_ready_in (lookup id c))

pub ready-runs : (o : Option Replica) → ready_in o ≡ true → runs_in o ≡ true
ready-runs none h = h
ready-runs (some r) h = refl

pub start-Ends :
    (fuel n id : ℕ) (c : Cluster)
    → IsNatural n
    → IsNatural id
    → runs id c ≡ true
    → idle n (alter id (set_election true) c) < fuel
    → Ends id c (start_leader_election fuel n id c)
unfolding start_leader_election
start-Ends zero n id c b a h f = absurd (omega arith)
start-Ends (suc fuel) n id c b a h f =
    let own = alter id (set_election true) c in
    let met =
      contact_loop-Meets (start_leader_election fuel n) n fuel
        (λ i d below ready few.
          start-Ends fuel n i d b (omega arith) (ready-runs (lookup i d) ready) (
            omega (
              arith,
              idle-drop n i d (alter i (set_election true) d) below ready (enter-busy i d)
                  (enter-Calm i d),
            )))
        n 0 own (omega arith) (omega arith) in
    let first : CalmBut id c met.after =
      CalmBut-join (alter-CalmBut id _ c) (Calm-CalmBut id met.quiet) in
    let last = ballot-Ends met.living id met.after a (first.same id ∙ h) in
    record {
      after = last.after;
      leader = last.leader;
      returns = rw (met.returns, last.returns) refl;
      quiet = CalmBut-join first last.quiet;
    }

-- An election among n replicas that a running replica starts returns, at a depth of at most n + 1
-- elections that wait for each other. At its end the same replicas run, and no other than the
-- caller has come to be without a leader and outside of an election.
pub start_leader_election-returns :
    (n id : ℕ) (c : Cluster)
    → IsNatural n
    → id < n
    → runs id c ≡ true
    → (d : Cluster) × (leader : ℕ) × (start_leader_election (n + 1) n id c ≡ ok (d, leader))
      × ((k : ℕ) → runs k d ≡ runs k c)
      × ((k : ℕ) → (ready_of k d && not (id == k || ready_of k c)) ≡ false)
start_leader_election-returns n id c b below h =
    let e =
      start-Ends (n + 1) n id c b (omega arith) h
        (omega (arith, idle-le n (alter id (set_election true) c))) in
    (e.after, e.leader, e.returns, e.quiet.same, λ k. ground (arith, e.quiet.calm k))
