-- ===== src/Receive/Counted.antt =====
-- Whatever a process multicasts and receives, its numbers count its deliveries.
use mathlib.Core.Path.{subst}
use native.Mathlib.Nat.{add-zero}
use ece.Prelude.{
  ℕ, ◌≡◌, refl, Option, none, some, List, [], ◌∷◌, arith, ◌==◌, ==→eq, ==_self, Result, ok, ◌>>=◌,
  >>=-eq-ok, ok-injective, Bool-cases, inl, inr, not,
}
use ece.Int32.{inc, slt}
use ece.Map.{Map, keys, lookup-insert}
use ece.Timestamp.{step}
use ece.Message.{Message, MessageType, heartbeat, retransrequest, message, make}
use ece.Message.Codec.{check, decode}
use ece.State.{
  Node, update_delivery_ack_list, update_failed_nodes, store_message, sequence_number_increment,
}
use ece.Mcast.{
  deliver, reset_timer, Run, emit, set_node, external, multicast_body, retransmission_requests,
  process_undelivered, clean_message_store, c_string,
}
use ece.Mcast.Progress.{
  deliveries-append, SameProgress, SameProgress-refl, SameProgress-trans, Keeps, Keeps-ok,
  emit-SameProgress, unicast-Keeps, unicast_all-Keeps, retransmission_requests-Keeps,
  clean_message_store-Keeps,
}
use ece.Mcast.Send.{ticked, multicast_of, multicast_deliver_self}
use ece.Mcast.Deliver.{IsCounted, SameProgress-IsCounted, external-last}
use ece.Mcast.Fifo.{process_undelivered-fifo}
use ece.Receive.{
  reset_timers, merge_timestamp, merge_state, receive_request, answer, is_duplicate,
  receive_message, receive_heartbeat, dispatch, receive_body,
}

-- A successful run from r keeps the count.
abbrev pub KeepsCount : Run → Result Run → Type 0
KeepsCount r m = (t : Run) → m ≡ ok t → IsCounted r → IsCounted t

pub of_Keeps : (r : Run) (m : Result Run) → Keeps r m → KeepsCount r m
of_Keeps r m k t e c = SameProgress-IsCounted (k t e) c

pub KeepsCount-ok : (r : Run) → KeepsCount r (ok r)
KeepsCount-ok r t e c = subst IsCounted (ok-injective e) c

KeepsCount-bind :
    (r : Run) (m : Result Run) (f : Run → Result Run)
    → KeepsCount r m
    → ((s : Run) → KeepsCount s (f s))
    → KeepsCount r (m >>= f)
KeepsCount-bind r m f k h t e c = let (s, p, q) = >>=-eq-ok m f e in h s t q (k s p c)

KeepsCount-after : (r s : Run) (m : Result Run) → SameProgress r s → KeepsCount s m → KeepsCount r m
KeepsCount-after r s m a k t e c = k t e (SameProgress-IsCounted a c)

reset_timers-SameProgress : (diff : Map ℕ) (r : Run) → SameProgress r (reset_timers diff r)
unfolding reset_timers
reset_timers-SameProgress [] r = SameProgress-refl r
reset_timers-SameProgress ((k, d) ∷ diff) r = elim (Bool-cases (slt 0 d)) [
  | inl e ↦ rw e (
      SameProgress-trans (emit-SameProgress (reset_timer k) r (λ j. refl))
        (reset_timers-SameProgress diff (emit (reset_timer k) r)))
  | inr e ↦ rw e (reset_timers-SameProgress diff r)
]

-- A change of the own node that leaves its id and its sequence number.
pub set_node-SameProgress :
    (n : Node) (r : Run)
    → n.id ≡ r.state.node.id
    → n.sequence_number ≡ r.state.node.sequence_number
    → SameProgress r (set_node n r)
set_node-SameProgress n r h k = record { id = h; own = k; last = λ j. refl; delivered = λ j. refl }

pub merge_timestamp-SameProgress : (m : Message) (r : Run) → SameProgress r (merge_timestamp m r).1
unfolding merge_timestamp
merge_timestamp-SameProgress m r =
    SameProgress-trans (set_node-SameProgress _ r refl refl) (reset_timers-SameProgress _ _)

pub merge_state-Keeps : (m : Message) (r : Run) → Keeps r (merge_state m r)
unfolding merge_state update_delivery_ack_list update_failed_nodes
merge_state-Keeps m r t h =
    let (e, p, q) = >>=-eq-ok (external m.sender_id r) _ h in
    subst (λ x. SameProgress r x) (ok-injective q)
      (record {
        id = refl;
        own = refl;
        last = λ k. ground (
          arith,
          external-last m.sender_id r e p,
          lookup-insert m.sender_id k (update_delivery_ack_list m.acknowledgements e)
              r.state.external_nodes,
        );
        delivered = λ k. refl;
      })

answer-Keeps : (to : ℕ) (found : Option Message) (r : Run) → Keeps r (answer to found r)
unfolding answer
answer-Keeps to none r = Keeps-ok r r (SameProgress-refl r)
answer-Keeps to (some m) r = unicast-Keeps to m r

receive_request-Keeps : (m : Message) (r : Run) → Keeps r (receive_request m r)
unfolding receive_request
receive_request-Keeps m r = answer-Keeps m.sender_id _ r

store_message-SameProgress :
    (p : ℕ) (m : Message) (r : Run)
    → SameProgress r (record r { state = store_message p m r.state })
unfolding store_message
store_message-SameProgress p m r = record {
  id = refl;
  own = refl;
  last = λ k. refl;
  delivered = λ k. refl;
}

receive_message-KeepsCount : (p : ℕ) (m : Message) (r : Run) → KeepsCount r (receive_message p m r)
unfolding receive_message
receive_message-KeepsCount p m r t h c =
    let (e, p₁, q) = >>=-eq-ok (external m.sender_id r) _ h in
    elim (Bool-cases (is_duplicate m e r)) [
      | inl old ↦ KeepsCount-ok r t (rw old at q) c
      | inr new ↦
          let r' : Run = record r { state = store_message p m r.state } in
          KeepsCount-bind r' (retransmission_requests m e.last_sequence_number r')
            (λ r. process_undelivered r >>= clean_message_store)
            (of_Keeps r' _ (retransmission_requests-Keeps m e.last_sequence_number r'))
            (λ s.
              KeepsCount-bind s (process_undelivered s) clean_message_store
                (λ u k d. (process_undelivered-fifo s u d k).4)
                (λ u. of_Keeps u _ (clean_message_store-Keeps u)))
            t (rw new at q) (SameProgress-IsCounted (store_message-SameProgress p m r) c)
    ]

dispatch-KeepsCount :
    (type : MessageType) (p : ℕ) (m : Message) (r : Run) → KeepsCount r (dispatch type p m r)
unfolding dispatch receive_heartbeat
dispatch-KeepsCount retransrequest p m r = of_Keeps r _ (receive_request-Keeps m r)
dispatch-KeepsCount message p m r = receive_message-KeepsCount p m r
dispatch-KeepsCount heartbeat p m r = λ t h c.
    let (e, p₁, q) = >>=-eq-ok (external m.sender_id r) _ h in
    of_Keeps r _ (retransmission_requests-Keeps m e.last_sequence_number r) t q c

pub receive_body-KeepsCount :
    (my_id p source : ℕ) (bytes : List ℕ) (r : Run)
    → KeepsCount r (receive_body my_id p source bytes r)
unfolding receive_body
receive_body-KeepsCount my_id p source bytes r t h c =
    let (u, p₁, q₁) = >>=-eq-ok (check (not (source == my_id))) _ h in
    let (m, p₂, q₂) = >>=-eq-ok (decode bytes) _ q₁ in
    let r₁ = set_node (record r.state.node { timestamp = step r.state.node.timestamp }) r in
    let (m', r₂) = merge_timestamp m r₁ in
    KeepsCount-bind r₂ (merge_state m' r₂) (dispatch m'.type p m')
      (of_Keeps r₂ _ (merge_state-Keeps m' r₂)) (dispatch-KeepsCount m'.type p m') t q₂
      (SameProgress-IsCounted
        (SameProgress-trans (set_node-SameProgress _ r refl refl)
          (merge_timestamp-SameProgress m r₁))
        c)

-- The own delivery of a multicast counts the number that was just incremented.
multicast_self-IsCounted :
    (text : List ℕ) (r : Run)
    → IsCounted r
    → IsCounted (emit (deliver r.state.node.id text) (ticked r))
unfolding emit sequence_number_increment inc
multicast_self-IsCounted text r c = record {
  unlisted = c.unlisted;
  own =
      rw (deliveries-append r.state.node.id r.out (deliver r.state.node.id text ∷ []))
        (rw (==_self r.state.node.id) (omega (arith, c.own)));
  others = λ k.
      rw (deliveries-append k r.out (deliver r.state.node.id text ∷ []))
        (elim (Bool-cases (r.state.node.id == k)) [
          | inl same ↦ rw (← ==→eq r.state.node.id k same, c.unlisted) tt
          | inr other ↦ rw (other, add-zero) (c.others k)
        ]);
}

pub multicast_body-KeepsCount :
    (p : ℕ) (text : List ℕ) (r : Run) → KeepsCount r (multicast_body p text r)
unfolding multicast_body make store_message sequence_number_increment emit
multicast_body-KeepsCount p text r t h c =
    let m = multicast_of text (ticked r).state in
    let r₁ : Run = emit (deliver r.state.node.id (c_string (c_string text))) (ticked r) in
    of_Keeps (record r₁ { state = store_message p m r₁.state }) _
      (unicast_all-Keeps (keys r.state.external_nodes) m _) t
      (rw (multicast_deliver_self m (ticked r) refl) at h)
      (SameProgress-IsCounted (store_message-SameProgress p m r₁) (multicast_self-IsCounted _ r c))
