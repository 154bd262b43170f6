-- ===== src/Mcast/Safe.antt =====
-- The delivery and the clean-up contain no assertion.
use ece.Prelude.{
  ◌&&◌, ℕ, Bool, true, false, [], ◌∷◌, arith, ◌==◌, if◌then◌else◌, Result, ok, IsSafe, IsSafe-ok,
  IsSafe-bind,
}
use ece.Int32.{inc}
use ece.Message.{Message}
use ece.State.{MessageStore}
use ece.Mcast.{
  Run, external, count_delivery, multicast_deliver, undelivered, sort_pointers, deliver_loop,
  process_undelivered, delivered_here, clean_loop, clean_message_store,
}

pub external-IsSafe : (k : ℕ) (r : Run) → IsSafe (external k r)
unfolding external
external-IsSafe k r = λ h. ground arith

IsSafe-if :
    {A : Type 0} (b : Bool) (m n : Result A) → IsSafe m → IsSafe n → IsSafe (if b then m else n)
IsSafe-if true m n h k = h
IsSafe-if false m n h k = k

multicast_deliver-IsSafe : (m : Message) (r : Run) → IsSafe (multicast_deliver m r)
unfolding multicast_deliver count_delivery
multicast_deliver-IsSafe m r =
    IsSafe-bind (count_delivery m.sender_id r) _
      (IsSafe-if (m.sender_id == r.state.node.id) _ _ (IsSafe-ok r) (
        IsSafe-bind (external m.sender_id r) _ (external-IsSafe m.sender_id r)
          (λ e _. IsSafe-ok _)))
      (λ s _. IsSafe-ok _)

undelivered-IsSafe : (s : MessageStore) (r : Run) → IsSafe (undelivered s r)
unfolding undelivered
undelivered-IsSafe [] r = IsSafe-ok _
undelivered-IsSafe ((p, m) ∷ s) r =
    IsSafe-if (m.sender_id == r.state.node.id) _ _ (undelivered-IsSafe s r) (
      IsSafe-bind (external m.sender_id r) _ (external-IsSafe m.sender_id r)
        (λ e _. IsSafe-bind (undelivered s r) _ (undelivered-IsSafe s r) (λ rest _. IsSafe-ok _)))

deliver_loop-IsSafe : (s : MessageStore) (r : Run) → IsSafe (deliver_loop s r)
unfolding deliver_loop
deliver_loop-IsSafe [] r = IsSafe-ok _
deliver_loop-IsSafe ((p, m) ∷ s) r =
    IsSafe-bind (external m.sender_id r) _ (external-IsSafe m.sender_id r) (λ e _.
      IsSafe-bind
        (if m.sequence_number == inc e.last_sequence_number then multicast_deliver m r else ok r)
        (deliver_loop s)
        (IsSafe-if (m.sequence_number == inc e.last_sequence_number) _ _
          (multicast_deliver-IsSafe m r) (IsSafe-ok r))
        (λ t _. deliver_loop-IsSafe s t))

pub process_undelivered-IsSafe : (r : Run) → IsSafe (process_undelivered r)
unfolding process_undelivered
process_undelivered-IsSafe r =
    IsSafe-bind (undelivered r.state.message_store r) _ (undelivered-IsSafe _ r)
      (λ pending _. deliver_loop-IsSafe (sort_pointers pending) r)

delivered_here-IsSafe : (m : Message) (r : Run) → IsSafe (delivered_here m r)
unfolding delivered_here
delivered_here-IsSafe m r =
    IsSafe-if (m.sender_id == r.state.node.id) _ _ (IsSafe-ok _)
      (IsSafe-bind (external m.sender_id r) _ (external-IsSafe m.sender_id r) (λ e _. IsSafe-ok _))

clean_loop-IsSafe : (s : MessageStore) (r : Run) → IsSafe (clean_loop s r)
unfolding clean_loop
clean_loop-IsSafe [] r = IsSafe-ok r
clean_loop-IsSafe ((p, m) ∷ s) r =
    IsSafe-bind (delivered_here m r) _ (delivered_here-IsSafe m r)
      (λ here _. IsSafe-if (here && _) _ _ (λ h. cc) (clean_loop-IsSafe s _))

pub clean_message_store-IsSafe : (r : Run) → IsSafe (clean_message_store r)
unfolding clean_message_store
clean_message_store-IsSafe r = clean_loop-IsSafe r.state.message_store r
