-- ===== src/FrontEnd/Search.antt =====
-- `findLeader` where the replicas agree on the leader.
use ece.Prelude.{
  ℕ, zero, suc, ◌+◌, ◌<◌, ◌≤◌, ◌≡◌, refl, true, false, Option, none, some, arith, ◌==◌, ==→eq,
  Bool-cases, inl, inr, Result, ok,
}
use ece.Map.{lookup}
use ece.Machines.{Machine}
use ece.Replica.{
  minus_one, Replica, Cluster, to_int16, ensure_leader, contact, start_leader_election,
  replace_dead, check_leader, get_leader, running,
}
use ece.FrontEnd.{
  FrontEnd, answers, dead, after_known, check_known, confirmed, named, or_next, search_loop,
  or_again, search, replace_leader, find_leader, ask_replica, System, known_by, ask_system,
}

-- Replica k, if it runs, knows the leader.
abbrev pub IsFollower : ℕ → ℕ → Option Replica → Type 0
IsFollower leader k none = Unit
IsFollower leader k (some r) = (r.leader ≡ leader) × (r.id ≡ k)

-- Replica `leader` of n runs, and the replicas that run know it as the leader.
pub record IsLed (n leader : ℕ) (c : Cluster) : Type 0 where
  pub below : leader < n
  pub few : n ≤ 32768
  pub leads : (r : Replica) × (lookup leader c ≡ some r)
  pub known : (k : ℕ) → IsFollower leader k (lookup k c)

-- A front end that is not searching, with the leader that it knows.
abbrev pub knows : ℕ → ℕ → FrontEnd
knows id known = record { id = id; leader = known; finding_leader = false }

module _ (n leader : ℕ) (elect : ℕ → Cluster → Result (Cluster × ℕ)) where
  follows :
      (i : ℕ) (c : Cluster) (r : Replica)
      → IsLed n leader c
      → lookup i c ≡ some r
      → r.leader ≡ leader
  follows i c r h e = let f : IsFollower leader i (some r) = rw e at (h.known i) in f.0

  contact-led :
      (c : Cluster) (r : Replica)
      → leader < 32768
      → r.leader ≡ leader
      → contact elect leader (some r) c ≡ ok (c, 1)
  unfolding contact ensure_leader
  contact-led c r low e =
      let elected : (leader == minus_one) ≡ false = ground arith in rw (e, elected) refl

  check_leader-led :
      (i : ℕ) (c : Cluster) (r : Replica)
      → IsLed n leader c
      → r.leader ≡ leader
      → check_leader elect i r c ≡ ok c
  unfolding check_leader replace_dead
  check_leader-led i c r h e =
      let elected : (leader == minus_one) ≡ false = ground (arith, h.below, h.few) in
      let (q, l) = h.leads in
      elim (Bool-cases (leader == r.id)) [
        | inl own ↦ rw (e, elected, own) refl
        | inr other ↦
            let met = contact-led c q (omega (arith, h.below, h.few)) (follows leader c q h l) in
            rw (e, elected, other, l, met) refl
      ]

  get_leader-led :
      (i : ℕ) (c : Cluster) (r : Replica)
      → IsLed n leader c
      → lookup i c ≡ some r
      → get_leader elect i c ≡ ok (c, leader)
  unfolding get_leader to_int16 running
  get_leader-led i c r h e =
      let low : leader < 32768 = omega (arith, h.below, h.few) in
      let p = follows i c r h e in rw (e, check_leader-led i c r h p, e, p) (ground arith)

module _ (machine : Machine) (n leader : ℕ) where
  ask-runs :
      (i : ℕ) (w : System machine) (r : Replica)
      → IsLed n leader w.cluster
      → lookup i w.cluster ≡ some r
      → ask_system machine n i w ≡ (w, answers leader)
  unfolding ask_system ask_replica
  ask-runs i w r h e =
      rw (get_leader-led n leader (start_leader_election (n + 1) n) i w.cluster r h e) refl

  ask-dead :
      (i : ℕ) (w : System machine)
      → lookup i w.cluster ≡ none
      → ask_system machine n i w ≡ (w, dead)
  unfolding ask_system ask_replica get_leader running
  ask-dead i w e = rw e refl

  pub known_by_leader :
      (w : System machine) → IsLed n leader w.cluster → known_by machine leader w ≡ leader
  known_by_leader w h =
      let (r, e) = h.leads in
      rw e (follows n leader (start_leader_election (n + 1) n) leader w.cluster r h e)

  module _ (sleep : System machine → System machine) where
    -- A round of the loop, which goes on where replica i does not run.
    round-led :
        (i : ℕ) (w : System machine) (rest : System machine → System machine × Option ℕ)
        (o : Option Replica)
        → IsLed n leader w.cluster
        → lookup i w.cluster ≡ o
        → (lookup i w.cluster ≡ none → rest w ≡ (w, some leader))
        → or_next
            (ask_system machine n)
            sleep
            rest
            (named (ask_system machine n) sleep (ask_system machine n i w))
          ≡ (w, some leader)
    unfolding or_next named confirmed
    round-led i w rest none h e later = rw (ask-dead i w e) (later e)
    round-led i w rest (some r) h e later =
        rw (ask-runs i w r h e, ask-runs leader w h.leads.0 h h.leads.1) refl

    -- The loop finds the leader, at the latest when it asks the leader itself.
    search_loop-led :
        (rounds i : ℕ) (w : System machine)
        → IsLed n leader w.cluster
        → i ≤ leader
        → leader < i + rounds
        → search_loop (ask_system machine n) sleep rounds i w ≡ (w, some leader)
    unfolding search_loop
    search_loop-led zero i w h a b = absurd (omega arith)
    search_loop-led (suc rounds) i w h a b =
        round-led i w (search_loop (ask_system machine n) sleep rounds (i + 1)) (lookup i w.cluster)
          h refl
          (λ e. elim (Bool-cases (i == leader)) [
            | inl same ↦ absurd (cc (h.leads.1, rw (==→eq i leader same) at e))
            | inr other ↦ search_loop-led rounds (i + 1) w h (ground arith) (omega arith)
          ])

    replace-led :
        (fuel id known : ℕ) (w : System machine)
        → IsLed n leader w.cluster
        → replace_leader (ask_system machine n) sleep (suc fuel) n (w, (knows id known, true))
          ≡ ok (w, knows id leader)
    unfolding replace_leader search or_again
    replace-led fuel id known w h =
        rw (search_loop-led n 0 w h (omega arith) (omega (arith, h.below))) refl

    known-led :
        (fuel id known : ℕ) (w : System machine) (o : Option Replica)
        → IsLed n leader w.cluster
        → lookup known w.cluster ≡ o
        → (known == minus_one) ≡ false
        → find_leader (ask_system machine n) sleep (suc fuel) n w (knows id known)
          ≡ ok (w, knows id leader)
    unfolding find_leader check_known after_known replace_leader
    known-led fuel id known w none h e k =
        rw (k, ask-dead known w e) (replace-led fuel id known w h)
    known-led fuel id known w (some r) h e k = rw (k, ask-runs known w r h e) refl

    -- Where the replicas that run know one of them, numbered below 32768, as the leader,
    -- `findLeader` of a front end that is not looking for a leader yet returns that leader after at
    -- most one round, whether the front end knew no leader before, a dead one, or one that has been
    -- replaced. It changes nothing at the replicas.
    pub find_leader-finds :
        (fuel id known : ℕ) (w : System machine)
        → IsLed n leader w.cluster
        → find_leader (ask_system machine n) sleep (suc fuel) n w (knows id known)
          ≡ ok (w, knows id leader)
    unfolding find_leader check_known
    find_leader-finds fuel id known w h = elim (Bool-cases (known == minus_one)) [
      | inl none_known ↦ rw none_known (replace-led fuel id known w h)
      | inr one_known ↦ known-led fuel id known w (lookup known w.cluster) h refl one_known
    ]
