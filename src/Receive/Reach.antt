-- ===== src/Receive/Reach.antt =====
-- Runs of a process: multicasts, packets, heartbeats and timeouts in any order.
use mathlib.Core.Path.{subst}
use ece.Prelude.{
  ℕ, ◌≡◌, refl, Option, none, some, List, [], ◌∷◌, arith, ◌==◌, Result, ok, >>=-eq-ok, ok-injective,
  Bool-cases, inl, inr,
}
use ece.Map.{Map, lookup, insert, lookup-insert}
use ece.State.{ExternalNode, GlobalState, make_state, make_node, make_external, externals}
use ece.Mcast.{Event, start_heartbeat, Run, heartbeat_send, heartbeat_failure}
use ece.Mcast.Progress.{
  last_of, deliveries, deliveries-append, SameProgress, Keeps-ok, heartbeat_send-Keeps,
}
use ece.Mcast.Deliver.{IsCounted, Counts}
use ece.Receive.Counted.{KeepsCount, of_Keeps, multicast_body-KeepsCount, receive_body-KeepsCount}
use ece.Receive.{
  after_run, Process, init_if_necessary, first_run, on_state, multicast, receive, beat, time_out,
}

-- The count of a process: before the first multicast or receipt nothing was delivered.
pub data ProcessIsCounted (p : Process) : Type 0 where
  idle : p.global_state ≡ none → ((k : ℕ) → deliveries k p.out ≡ 0) → ProcessIsCounted p
  running :
      (g : GlobalState)
      → p.global_state ≡ some g
      → IsCounted (record { state = g; out = p.out })
      → ProcessIsCounted p

-- A group member that the state starts with has the number 0, and the process itself is no such
-- member.
externals-last :
    (own : ℕ) (ids : List ℕ) (es : Map ExternalNode)
    → last_of own es ≡ none
    → ((k n : ℕ) → last_of k es ≡ some n → n ≡ 0)
    → (last_of own (externals own ids es) ≡ none)
      × ((k n : ℕ) → last_of k (externals own ids es) ≡ some n → n ≡ 0)
unfolding externals make_external
externals-last own [] es h z = (h, z)
externals-last own (i ∷ ids) es h z = elim (Bool-cases (i == own)) [
  | inl same ↦ rw same (externals-last own ids es h z)
  | inr other ↦ rw other (
      externals-last own ids (insert i (make_external i) es)
        (ground (arith, lookup-insert i own (make_external i) es))
        (λ k n e. ground (arith, lookup-insert i k (make_external i) es, z k n)))
]

Counts-zero : (o : Option ℕ) (d : ℕ) → d ≡ 0 → ((n : ℕ) → o ≡ some n → n ≡ 0) → Counts o d
Counts-zero none d h z = tt
Counts-zero (some n) d h z = rw (h, z n refl)

make_state-IsCounted :
    (own : ℕ) (members : List ℕ) (out : List Event)
    → ((k : ℕ) → deliveries k out ≡ 0)
    → IsCounted (record { state = make_state own members; out = out })
unfolding make_state make_node lookup
make_state-IsCounted own members out h =
    let (unlisted, zeros) = externals-last own members [] refl (λ k n e. cc) in
    record {
      unlisted = unlisted;
      own = rw (h own);
      others = λ k. Counts-zero _ (deliveries k out) (h k) (zeros k);
    }

init-IsCounted : (p : Process) → ProcessIsCounted p → IsCounted (init_if_necessary p)
unfolding init_if_necessary first_run
init-IsCounted p (idle e d) = rw e (
    make_state-IsCounted p.my_id p.members _ (λ k.
      omega
        (arith, deliveries-append k p.out (start_heartbeat p.my_id p.members 9000 3000 ∷ []), d k)))
init-IsCounted p (running g e c) = rw e c

after_run-IsCounted :
    (p q : Process) (r : Run) (m : Result Run)
    → KeepsCount r m
    → IsCounted r
    → after_run p m ≡ ok q
    → ProcessIsCounted q
after_run-IsCounted p q r m k c h =
    let (t, p₁, q₁) = >>=-eq-ok m _ h in
    subst ProcessIsCounted (ok-injective q₁) (running t.state refl (k t p₁ c))

on_state-IsCounted :
    (p q : Process) (f : Run → Result Run)
    → ((r : Run) → KeepsCount r (f r))
    → on_state p.global_state f p ≡ ok q
    → ProcessIsCounted p
    → ProcessIsCounted q
unfolding on_state
on_state-IsCounted p q f k h (idle e d) = cc (rw e at h)
on_state-IsCounted p q f k h (running g e c) =
    let r : Run = record { state = g; out = p.out } in
    after_run-IsCounted p q r (f r) (k r) c (rw e at h)

heartbeat_failure-SameProgress :
    (failed_id : ℕ) (r : Run) → SameProgress r (heartbeat_failure failed_id r)
unfolding heartbeat_failure
heartbeat_failure-SameProgress failed_id r = record {
  id = refl;
  own = refl;
  last = λ k. refl;
  delivered = λ k. refl;
}

-- What can happen to a process, each with the result that it does not stop there.
pub data Step (p : Process) : Process → Type 0 where
  multicasts :
      {q : Process} (address : ℕ) (text : List ℕ) → multicast address text p ≡ ok q → Step p q
  receives :
      {q : Process} (address source : ℕ) (bytes : List ℕ)
      → receive address source bytes p ≡ ok q
      → Step p q
  beats : {q : Process} → beat p ≡ ok q → Step p q
  times_out : {q : Process} (failed_id : ℕ) → time_out failed_id p ≡ ok q → Step p q

pub data Reach (p : Process) : Process → Type 0 where
  here : Reach p p
  then_step : {q s : Process} → Reach p q → Step q s → Reach p s

Step-IsCounted : {p q : Process} → Step p q → ProcessIsCounted p → ProcessIsCounted q
unfolding multicast receive beat time_out
Step-IsCounted {p} {q} (multicasts address text h) c =
    after_run-IsCounted p q _ _ (multicast_body-KeepsCount address text (init_if_necessary p))
      (init-IsCounted p c) h
Step-IsCounted {p} {q} (receives address source bytes h) c =
    after_run-IsCounted p q _ _
      (receive_body-KeepsCount p.my_id address source bytes (init_if_necessary p))
      (init-IsCounted p c) h
Step-IsCounted {p} {q} (beats h) c =
    on_state-IsCounted p q heartbeat_send (λ r. of_Keeps r _ (heartbeat_send-Keeps r)) h c
Step-IsCounted {p} {q} (times_out failed_id h) c =
    on_state-IsCounted p q (λ r. ok (heartbeat_failure failed_id r))
      (λ r. of_Keeps r _ (Keeps-ok r _ (heartbeat_failure-SameProgress failed_id r))) h c

-- Whatever packets arrive and whatever is multicast, in any order: a process whose count is right
-- has a right count for as long as it runs. That is, its sequence number and the number that it
-- keeps for each other process are the numbers of deliveries from there, modulo 2 ^ 32.
pub Reach-IsCounted : {p q : Process} → Reach p q → ProcessIsCounted p → ProcessIsCounted q
Reach-IsCounted here c = c
Reach-IsCounted (then_step r s) c = Step-IsCounted s (Reach-IsCounted r c)
