-- ===== src/Replica/Calm.antt =====
-- The parts of a ballot make no other replica ready.
use ece.Prelude.{
  ℕ, zero, suc, ◌+◌, ◌/◌, ◌%◌, ◌≡◌, true, false, Option, none, some, arith, ltb, ◌==◌, Bool-cases,
  inl, inr,
}
use ece.Int32.{word, slt, sle, IsNatural}
use ece.Map.{lookup}
use ece.Replica.{
  minus_one, Replica, Tally, Cluster, prepare, accept, inform, alter, count_promise, ask,
  promise_loop, ask_accept, accept_loop, inform_loop, campaign, set_proposal_number, set_leader,
}
use ece.Replica.Quiet.{
  CalmBut, Calm, Calm-refl, Calm-join, CalmBut-join, Calm-CalmBut, alter-Calm, alter-CalmBut,
}

ask-Calm : (o : Option Replica) (i n : ℕ) (c : Cluster) (t : Tally) → Calm c (ask o i n c t).0
unfolding ask prepare
ask-Calm none i n c t = Calm-refl c
ask-Calm (some r) i n c t = alter-Calm i _ c (λ r. ground arith)

pub promise_loop-Calm :
    (rounds i id n : ℕ) (c : Cluster) (t : Tally) → Calm c (promise_loop rounds i id n c t).0
unfolding promise_loop
promise_loop-Calm zero i id n c t = Calm-refl c
promise_loop-Calm (suc rounds) i id n c t = elim (Bool-cases (i == id)) [
  | inl own ↦ rw own (Calm-refl c)
  | inr other ↦
      rw other
        (Calm-join (ask-Calm (lookup i c) i n c t) (promise_loop-Calm rounds (i + 1) id n _ _))
]

ask-value :
    (id : ℕ) (o : Option Replica) (i n : ℕ) (c : Cluster) (t : Tally)
    → sle id t.highest_accepted_value ≡ true
    → sle id (ask o i n c t).1.highest_accepted_value ≡ true
unfolding ask count_promise sle slt
ask-value id none i n c t h = h
ask-value id (some r) i n c t h = ground arith

-- The value that a proposer campaigns for is not below its own number.
pub promise_loop-value :
    (rounds i id n : ℕ) (c : Cluster) (t : Tally)
    → sle id t.highest_accepted_value ≡ true
    → sle id (promise_loop rounds i id n c t).1.highest_accepted_value ≡ true
unfolding promise_loop
promise_loop-value zero i id n c t h = h
promise_loop-value (suc rounds) i id n c t h = ground (
  arith,
  ask-value id (lookup i c) i n c t h,
  promise_loop-value rounds (i + 1) id n (ask (lookup i c) i n c t).0 (ask (lookup i c) i n c t).1,
)

ask_accept-Calm :
    (o : Option Replica) (i n value : ℕ) (c : Cluster) (accepted : ℕ)
    → Calm c (ask_accept o i n value c accepted).0
unfolding ask_accept accept
ask_accept-Calm none i n value c accepted = Calm-refl c
ask_accept-Calm (some r) i n value c accepted = alter-Calm i _ c (λ r. ground arith)

pub accept_loop-Calm :
    (rounds i id n value : ℕ) (c : Cluster) (accepted : ℕ)
    → Calm c (accept_loop rounds i id n value c accepted).0
unfolding accept_loop
accept_loop-Calm zero i id n value c accepted = Calm-refl c
accept_loop-Calm (suc rounds) i id n value c accepted = elim (Bool-cases (i == id)) [
  | inl own ↦ rw own (Calm-refl c)
  | inr other ↦ rw other (
      Calm-join (ask_accept-Calm (lookup i c) i n value c accepted)
        (accept_loop-Calm rounds (i + 1) id n value _ _))
]

inform_loop-Calm :
    (rounds i id value : ℕ) (c : Cluster)
    → (value == minus_one) ≡ false
    → Calm c (inform_loop rounds i id value c)
unfolding inform_loop inform
inform_loop-Calm zero i id value c h = Calm-refl c
inform_loop-Calm (suc rounds) i id value c h = elim (Bool-cases (i == id)) [
  | inl own ↦ rw own (Calm-refl c)
  | inr other ↦ rw other (
      Calm-join (alter-Calm i (inform value) c (λ r. ground arith))
        (inform_loop-Calm rounds (i + 1) id value _ h))
]

pub campaign-CalmBut :
    (living id number value : ℕ) (c : Cluster)
    → (value == minus_one) ≡ false
    → CalmBut id c (campaign living id number value c)
unfolding campaign
campaign-CalmBut living id number value c h =
    let n = (number + living) % word in
    let own = alter id (set_proposal_number n) c in
    let (voted, accepted) = accept_loop living 0 id n value own 0 in
    let first : CalmBut id c voted =
      CalmBut-join (alter-CalmBut id _ c)
        (Calm-CalmBut id (accept_loop-Calm living 0 id n value own 0)) in
    elim (Bool-cases (ltb (living / 2) accepted)) [
      | inl won ↦ rw won (
          CalmBut-join first (
            CalmBut-join (alter-CalmBut id (set_leader value) voted)
              (Calm-CalmBut id (inform_loop-Calm living 0 id value _ h))))
      | inr lost ↦ rw lost first
    ]

pub not_minus_one :
    (id value : ℕ) → IsNatural id → sle id value ≡ true → (value == minus_one) ≡ false
unfolding sle
not_minus_one id value b h = ground arith
