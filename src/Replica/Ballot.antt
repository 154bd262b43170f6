-- ===== src/Replica/Ballot.antt =====
-- A proposer asks only the replicas with smaller numbers than its own.
use mathlib.Core.Path.{ap}
use ece.Prelude.{
  ℕ, zero, suc, ◌+◌, ◌-◌, ◌/◌, ◌%◌, ◌≤◌, ◌≡◌, refl, sym, ◌∙◌, false, Option, none, some, [], ◌∷◌,
  arith, ltb, ◌==◌, if◌then◌else◌, Bool-cases, inl, inr, ok, >>=-eq-ok, ok-injective,
}
use ece.Int32.{word}
use ece.Map.{lookup}
use ece.Replica.{
  Replica, Tally, Cluster, prepare, alter, count_promise, ask, promise_loop, ballot,
  set_proposal_number, set_election, running,
}

abbrev pub changed : (Replica → Replica) → Option Replica → Option Replica
changed f none = none
changed f (some r) = some (f r)

pub lookup-alter :
    (id k : ℕ) (f : Replica → Replica) (c : Cluster)
    → lookup k (alter id f c) ≡ (if id == k then changed f (lookup k c) else lookup k c)
unfolding lookup alter
lookup-alter id k f [] = ground arith
lookup-alter id k f ((j, r) ∷ c) = ground (arith, lookup-alter id k f c)

-- The leader that replica k knows.
abbrev pub leader_in : Option Replica → Option ℕ
leader_in none = none
leader_in (some r) = some r.leader

abbrev pub leader_of : ℕ → Cluster → Option ℕ
leader_of k c = leader_in (lookup k c)

leader_in-changed :
    (f : Replica → Replica) (o : Option Replica)
    → ((r : Replica) → (f r).leader ≡ r.leader)
    → leader_in (changed f o) ≡ leader_in o
leader_in-changed f none h = refl
leader_in-changed f (some r) h = ap some (h r)

pub leader_of-alter :
    (id k : ℕ) (f : Replica → Replica) (c : Cluster)
    → ((r : Replica) → (f r).leader ≡ r.leader)
    → leader_of k (alter id f c) ≡ leader_of k c
leader_of-alter id k f c h =
    rw (lookup-alter id k f c) (ground (arith, leader_in-changed f (lookup k c) h))

ask-leader_of :
    (o : Option Replica) (i n k : ℕ) (c : Cluster) (t : Tally)
    → leader_of k (ask o i n c t).0 ≡ leader_of k c
unfolding ask prepare
ask-leader_of none i n k c t = refl
ask-leader_of (some r) i n k c t = leader_of-alter i k _ c (λ r. ground arith)

promise_loop-leader_of :
    (rounds i id n k : ℕ) (c : Cluster) (t : Tally)
    → leader_of k (promise_loop rounds i id n c t).0 ≡ leader_of k c
unfolding promise_loop
promise_loop-leader_of zero i id n k c t = refl
promise_loop-leader_of (suc rounds) i id n k c t = elim (Bool-cases (i == id)) [
  | inl own ↦ rw own refl
  | inr other ↦ rw other (
      promise_loop-leader_of rounds (i + 1) id n k (ask (lookup i c) i n c t).0
        (ask (lookup i c) i n c t).1
      ∙ ask-leader_of (lookup i c) i n k c t)
]

ask-count :
    (o : Option Replica) (i n : ℕ) (c : Cluster) (t : Tally)
    → (ask o i n c t).1.promised_count ≤ t.promised_count + 1
unfolding ask count_promise
ask-count none i n c t = omega arith
ask-count (some r) i n c t = ground arith

-- One promise at most for each smaller number.
promise_loop-count :
    (rounds i id n : ℕ) (c : Cluster) (t : Tally)
    → i ≤ id
    → (promise_loop rounds i id n c t).1.promised_count ≤ t.promised_count + (id - i)
unfolding promise_loop
promise_loop-count zero i id n c t h = omega arith
promise_loop-count (suc rounds) i id n c t h = ground (
  arith,
  ask-count (lookup i c) i n c t,
  promise_loop-count rounds (i + 1) id n (ask (lookup i c) i n c t).0 (ask (lookup i c) i n c t).1,
)

too_few :
    (living id n : ℕ) (c : Cluster) (t : Tally)
    → id ≤ living / 2
    → t.promised_count ≡ 0
    → ltb (living / 2) (promise_loop living 0 id n c t).1.promised_count ≡ false
too_few living id n c t h z = ground (arith, promise_loop-count living 0 id n c t)

-- A replica whose number is at most half of the count of the living elects nobody: its ballot ends
-- with every replica following the leader that it followed before.
pub ballot_minority :
    (living id k : ℕ) (c d : Cluster) (leader : ℕ)
    → id ≤ living / 2
    → ballot living id c ≡ ok (d, leader)
    → leader_of k d ≡ leader_of k c
unfolding ballot
ballot_minority living id k c d leader h e =
    let (r, p, q) = >>=-eq-ok (running (lookup id c)) _ e in
    let n = (r.proposal_number + living) % word in
    let own = alter id (set_proposal_number n) c in
    let start : Tally = record { promised_count = 0; highest_accepted_value = id } in
    let asked = (promise_loop living 0 id n own start).0 in
    let (s, p₁, q₁) =
      >>=-eq-ok (running (lookup id (alter id (set_election false) asked))) _
        (rw (too_few living id n own start h refl) at q) in
    ap (λ (x : Cluster × ℕ). leader_of k x.0) (sym (ok-injective q₁))
    ∙ leader_of-alter id k (set_election false) asked (λ r. refl)
    ∙ promise_loop-leader_of living 0 id n k own start
    ∙ leader_of-alter id k (set_proposal_number n) c (λ r. refl)
