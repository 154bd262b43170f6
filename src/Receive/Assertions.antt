-- ===== src/Receive/Assertions.antt =====
-- The assertion in `retransmissionRequests` cannot fail on the messages of the protocol.
use mathlib.Core.Path.{subst}
use ece.Prelude.{
  ℕ, ◌≡◌, ◌∙◌, true, Option, none, some, ==_self, ok, >>=-eq-ok, ok-injective, IsSafe, IsSafe-ok,
  IsSafe-bind, Bool-cases, inl, inr,
}
use ece.Int32.{sle, sle_trans}
use ece.Map.{lookup, lookup-insert}
use ece.Message.{Message, MessageType, heartbeat, retransrequest, message}
use ece.State.{update_delivery_ack_list, update_failed_nodes, store_message}
use ece.State.Acks.{merge_acks-ge}
use ece.Mcast.{Run, external, retransmission_requests, process_undelivered, clean_message_store}
use ece.Mcast.Retransmit.{some_has, some_has-lookup, unicast-IsSafe, retransmission_requests-IsSafe}
use ece.Mcast.Safe.{external-IsSafe, process_undelivered-IsSafe, clean_message_store-IsSafe}
use ece.Receive.{
  merge_state, answer, receive_request, is_duplicate, receive_message, receive_heartbeat, dispatch,
}

-- The sender acknowledges its own message, as everything that is sent does.
abbrev pub AcknowledgesItself : Message → ℕ → Type 0
AcknowledgesItself m a =
    (lookup m.sender_id m.acknowledgements ≡ some a) × (sle m.sequence_number a ≡ true)

merge_state-has :
    (m : Message) (a : ℕ) (r s : Run)
    → AcknowledgesItself m a
    → merge_state m r ≡ ok s
    → some_has m.sender_id m.sequence_number s.state.external_nodes ≡ true
unfolding merge_state update_delivery_ack_list update_failed_nodes
merge_state-has m a r s (listed, reached) h =
    let (e, p, q) = >>=-eq-ok (external m.sender_id r) _ h in
    subst (λ (x : Run). some_has m.sender_id m.sequence_number x.state.external_nodes ≡ true)
      (ok-injective q)
      (some_has-lookup m.sender_id m.sequence_number m.sender_id _
        (update_delivery_ack_list m.acknowledgements e)
        (lookup-insert m.sender_id m.sender_id _ r.state.external_nodes ∙ rw (==_self m.sender_id))
        (sle_trans m.sequence_number a _ reached
          (merge_acks-ge m.acknowledgements e.delivery_ack_list m.sender_id a listed)))

answer-IsSafe : (to : ℕ) (found : Option Message) (r : Run) → IsSafe (answer to found r)
unfolding answer
answer-IsSafe to none r = IsSafe-ok r
answer-IsSafe to (some m) r = unicast-IsSafe to m r

receive_message-IsSafe :
    (p : ℕ) (m : Message) (r : Run)
    → some_has m.sender_id m.sequence_number r.state.external_nodes ≡ true
    → IsSafe (receive_message p m r)
unfolding receive_message store_message
receive_message-IsSafe p m r h =
    IsSafe-bind (external m.sender_id r) _ (external-IsSafe m.sender_id r) (λ e _.
      elim (Bool-cases (is_duplicate m e r)) [
        | inl old ↦ rw old (IsSafe-ok r)
        | inr new ↦ rw new (
            IsSafe-bind (retransmission_requests m e.last_sequence_number _) _
              (retransmission_requests-IsSafe m e.last_sequence_number _ h)
              (λ s _.
                IsSafe-bind (process_undelivered s) clean_message_store
                  (process_undelivered-IsSafe s) (λ t _. clean_message_store-IsSafe t)))
      ])

dispatch-IsSafe :
    (type : MessageType) (p : ℕ) (m : Message) (r : Run)
    → some_has m.sender_id m.sequence_number r.state.external_nodes ≡ true
    → IsSafe (dispatch type p m r)
unfolding dispatch receive_request receive_heartbeat
dispatch-IsSafe retransrequest p m r h = answer-IsSafe m.sender_id _ r
dispatch-IsSafe message p m r h = receive_message-IsSafe p m r h
dispatch-IsSafe heartbeat p m r h =
    IsSafe-bind (external m.sender_id r) _ (external-IsSafe m.sender_id r)
      (λ e _. retransmission_requests-IsSafe m e.last_sequence_number r h)

-- A message of any type whose acknowledgements reach its own sequence number, as they do in all that
-- `multicast` and `heartbeat_send` build: once it is merged into the state, the rest of `receive`
-- does not fail `assert(!deliveredNodes.empty())`, whatever the store holds.
pub dispatch-no_abort :
    (p : ℕ) (m : Message) (a : ℕ) (r s : Run)
    → AcknowledgesItself m a
    → merge_state m r ≡ ok s
    → IsSafe (dispatch m.type p m s)
dispatch-no_abort p m a r s k h = dispatch-IsSafe m.type p m s (merge_state-has m a r s k h)
