-- ===== src/Replica/Agreement.antt =====
-- A won election: whom the new leader's name reaches.
use mathlib.Core.Path.{ap}
use ece.Prelude.{
  ℕ, zero, suc, ◌+◌, ◌/◌, ◌%◌, ◌<◌, ◌≤◌, ◌≡◌, refl, ◌∙◌, true, false, Option, none, some, arith,
  ltb, ◌==◌, ==→eq, ==_self, Bool-cases, inl, inr,
}
use ece.Int32.{word}
use ece.Map.{lookup}
use ece.Replica.{
  Replica, Cluster, inform, alter, ask_accept, accept, accept_loop, inform_loop, campaign,
  set_proposal_number, set_leader,
}
use ece.Replica.Ballot.{changed, lookup-alter, leader_in, leader_of}
use ece.Replica.Quiet.{runs_in, runs, runs-alter, Calm}
use ece.Replica.Calm.{accept_loop-Calm}

leader_in-set :
    (f : Replica → Replica) (value : ℕ) (o : Option Replica)
    → ((r : Replica) → (f r).leader ≡ value)
    → runs_in o ≡ true
    → leader_in (changed f o) ≡ some value
leader_in-set f value none h e = cc
leader_in-set f value (some r) h e = ap some (h r)

leader_of-set :
    (i value : ℕ) (f : Replica → Replica) (c : Cluster)
    → ((r : Replica) → (f r).leader ≡ value)
    → runs i c ≡ true
    → leader_of i (alter i f c) ≡ some value
leader_of-set i value f c h e =
    rw (lookup-alter i i f c, ==_self i) (leader_in-set f value (lookup i c) h e)

leader_in-again :
    (f : Replica → Replica) (value : ℕ) (o : Option Replica)
    → ((r : Replica) → (f r).leader ≡ value)
    → leader_in o ≡ some value
    → leader_in (changed f o) ≡ some value
leader_in-again f value none h e = e
leader_in-again f value (some r) h e = ap some (h r)

inform_again :
    (i k value : ℕ) (c : Cluster)
    → leader_of k c ≡ some value
    → leader_of k (alter i (inform value) c) ≡ some value
unfolding inform
inform_again i k value c h =
    rw (lookup-alter i k (inform value) c)
      (ground (arith, leader_in-again (inform value) value (lookup k c) (λ r. refl) h))

inform_loop-keeps :
    (rounds i id k value : ℕ) (c : Cluster)
    → leader_of k c ≡ some value
    → leader_of k (inform_loop rounds i id value c) ≡ some value
unfolding inform_loop
inform_loop-keeps zero i id k value c h = h
inform_loop-keeps (suc rounds) i id k value c h = elim (Bool-cases (i == id)) [
  | inl own ↦ rw own h
  | inr other ↦
      rw other (inform_loop-keeps rounds (i + 1) id k value _ (inform_again i k value c h))
]

inform_loop-reaches :
    (rounds i id k value : ℕ) (c : Cluster)
    → i ≤ k
    → k < i + rounds
    → k < id
    → runs k c ≡ true
    → leader_of k (inform_loop rounds i id value c) ≡ some value
unfolding inform_loop
inform_loop-reaches zero i id k value c a b l h = absurd (omega arith)
inform_loop-reaches (suc rounds) i id k value c a b l h =
    let other : (i == id) ≡ false = ground arith in
    rw other (elim (Bool-cases (i == k)) [
      | inl here ↦
          let set : leader_of k (alter i (inform value) c) ≡ some value =
            rw (==→eq i k here)
              (leader_of-set k value (inform value) c (λ r. unfold inform in refl) h) in
          inform_loop-keeps rounds (i + 1) id k value _ set
      | inr later ↦
          inform_loop-reaches rounds (i + 1) id k value _ (ground arith) (omega arith) l
            (runs-alter i k (inform value) c ∙ h)
    ])

-- The loops ask no replica whose number is not below the count of the living.
inform_loop-above :
    (rounds i id j value : ℕ) (c : Cluster)
    → i + rounds ≤ j
    → lookup j (inform_loop rounds i id value c) ≡ lookup j c
unfolding inform_loop
inform_loop-above zero i id j value c l = refl
inform_loop-above (suc rounds) i id j value c l = elim (Bool-cases (i == id)) [
  | inl own ↦ rw own refl
  | inr other ↦
      let apart : (i == j) ≡ false = ground arith in
      rw other (
        inform_loop-above rounds (i + 1) id j value (alter i (inform value) c) (omega arith)
        ∙ lookup-alter i j (inform value) c
        ∙ rw apart refl)
]

ask_accept-above :
    (o : Option Replica) (i j n value accepted : ℕ) (c : Cluster)
    → (i == j) ≡ false
    → lookup j (ask_accept o i n value c accepted).0 ≡ lookup j c
unfolding ask_accept
ask_accept-above none i j n value accepted c h = refl
ask_accept-above (some r) i j n value accepted c h =
    lookup-alter i j (λ r. (accept n value r).0) c ∙ rw h refl

accept_loop-above :
    (rounds i id j n value accepted : ℕ) (c : Cluster)
    → i + rounds ≤ j
    → lookup j (accept_loop rounds i id n value c accepted).0 ≡ lookup j c
unfolding accept_loop
accept_loop-above zero i id j n value accepted c l = refl
accept_loop-above (suc rounds) i id j n value accepted c l = elim (Bool-cases (i == id)) [
  | inl own ↦ rw own refl
  | inr other ↦
      let (c', accepted') = ask_accept (lookup i c) i n value c accepted in
      rw other (
        accept_loop-above rounds (i + 1) id j n value accepted' c' (omega arith)
        ∙ ask_accept-above (lookup i c) i j n value accepted c (ground arith))
]

-- A campaign whose proposal is accepted by more than half as many as live, and its effect: the
-- proposer, and every running replica whose number is smaller than its own and than the count of the
-- living, then follow the elected leader; the other replicas whose numbers are not below the count
-- of the living are as they were, whether they run or not.
pub campaign-agrees :
    (living id number value k : ℕ) (c : Cluster)
    → runs id c ≡ true
    → runs k c ≡ true
    → k < id
    → k < living
    → living / 2
      < (accept_loop living 0 id
          ((number + living) % word)
          value
          (alter id (set_proposal_number ((number + living) % word)) c)
          0).1
    → (leader_of id (campaign living id number value c) ≡ some value)
      × (leader_of k (campaign living id number value c) ≡ some value)
      × ((j : ℕ)
          → living ≤ j
          → (id == j) ≡ false
          → lookup j (campaign living id number value c) ≡ lookup j c)
unfolding campaign
campaign-agrees living id number value k c own runs_k below few won =
    let n = (number + living) % word in
    let start = alter id (set_proposal_number n) c in
    let voted = (accept_loop living 0 id n value start 0).0 in
    let same = Calm.same (accept_loop-Calm living 0 id n value start 0) in
    let led = alter id (set_leader value) voted in
    let own' : runs id voted ≡ true = same id ∙ runs-alter id id _ c ∙ own in
    let runs_k' : runs k led ≡ true =
      runs-alter id k (set_leader value) voted ∙ same k ∙ runs-alter id k _ c ∙ runs_k in
    let many : ltb (living / 2) (accept_loop living 0 id n value start 0).1 ≡ true = ground arith in
    rw many (
      inform_loop-keeps living 0 id id value led
          (leader_of-set id value (set_leader value) voted (λ r. refl) own'),
      inform_loop-reaches living 0 id k value led (omega arith) (omega arith) below runs_k',
      λ j l apart.
          inform_loop-above living 0 id j value led (omega arith)
          ∙ lookup-alter id j (set_leader value) voted
          ∙ rw apart (
              accept_loop-above living 0 id j n value 0 start (omega arith)
              ∙ lookup-alter id j (set_proposal_number n) c
              ∙ rw apart refl),
    )
