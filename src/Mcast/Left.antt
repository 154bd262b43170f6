-- ===== src/Mcast/Left.antt =====
-- What `processUndelivered` leaves where messages of one sender arrived out of order.
use ece.Prelude.{
  ℕ, ◌<◌, ◌≡◌, refl, ap, ◌∙◌, true, false, some, [], ◌∷◌, ◌++◌, arith, ◌==◌, ==_self, ok, ◌>>=◌,
}
use ece.Int32.{inc, slt}
use ece.Map.{insert}
use ece.Message.{Message}
use ece.State.{ExternalNode, MessageStore, last_sequence_number_increment}
use ece.Mcast.{
  deliver, Run, emit, set_externals, external, c_string, undelivered, sort_pointers, deliver_loop,
  process_undelivered,
}
use ece.Mcast.Progress.{last_of}
use ece.Mcast.Causal.{undelivered_two, sort_pointers-Ascends, deliver_loop-next}
use ece.Mcast.Next.{last_of-delivered}

deliver_loop-later :
    (p : ℕ) (m : Message) (s : MessageStore) (r : Run) (e : ExternalNode)
    → external m.sender_id r ≡ ok e
    → (m.sequence_number == inc e.last_sequence_number) ≡ false
    → deliver_loop ((p, m) ∷ s) r ≡ deliver_loop s r
unfolding deliver_loop
deliver_loop-later p m s r e h n = rw (h, n) refl

after_next : (k n : ℕ) → k ≡ inc (inc n) → (k == inc n) ≡ false
unfolding inc
after_next k n h = ground (arith, h)

-- Where the store holds the next two messages of a sender, and the later one stands at the lower
-- address, only the first is delivered: the second stays in the store, undelivered, though it is the
-- next one then. (Their numbers are above the last one.)
pub process_undelivered-leaves :
    (p q : ℕ) (a b : Message) (r : Run) (e : ExternalNode)
    → p < q
    → r.state.message_store ≡ (p, b) ∷ (q, a) ∷ []
    → (a.sender_id == r.state.node.id) ≡ false
    → b.sender_id ≡ a.sender_id
    → external a.sender_id r ≡ ok e
    → a.sequence_number ≡ inc e.last_sequence_number
    → b.sequence_number ≡ inc (inc e.last_sequence_number)
    → slt e.last_sequence_number a.sequence_number ≡ true
    → slt e.last_sequence_number b.sequence_number ≡ true
    → (t : Run) × (process_undelivered r ≡ ok t)
      × (t.out ≡ r.out ++ deliver a.sender_id (c_string a.text) ∷ [])
      × (t.state.message_store ≡ r.state.message_store)
      × (last_of b.sender_id t.state.external_nodes ≡ some a.sequence_number)
      × (b.sequence_number ≡ inc a.sequence_number)
unfolding process_undelivered emit
process_undelivered-leaves p q a b r e pq store fa same ea na nb sa sb =
    let eb : external b.sender_id r ≡ ok e = rw same ea in
    let fb : (b.sender_id == r.state.node.id) ≡ false = rw same fa in
    (
      emit (deliver a.sender_id (c_string a.text)) (
          set_externals
            (insert a.sender_id (last_sequence_number_increment e) r.state.external_nodes) r),
      ap (λ o. o >>= λ pending. deliver_loop (sort_pointers pending) r)
            (ap (λ s. undelivered s r) store ∙ undelivered_two p q b a r e e fb fa eb ea sb sa)
          ∙ ap (λ s. deliver_loop s r)
              (sort_pointers-Ascends ((p, b) ∷ (q, a) ∷ []) ((pq, tt), (tt, tt)))
          ∙ deliver_loop-later p b ((q, a) ∷ []) r e eb
              (after_next b.sequence_number e.last_sequence_number nb)
          ∙ deliver_loop-next q a [] r e fa ea na
          ∙ (unfold deliver_loop in refl),
      refl,
      refl,
      rw same (
          last_of-delivered r.state.node.id a e r.state.external_nodes a.sender_id
          ∙ rw (==_self a.sender_id, na) refl),
      rw na nb,
    )
