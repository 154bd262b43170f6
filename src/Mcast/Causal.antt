-- ===== src/Mcast/Causal.antt =====
-- The order of deliveries: `processUndelivered` sorts pointers, and the store is in the order of the
-- pointers already.
use ece.Prelude.{
  ℕ, ◌<◌, ◌≡◌, refl, ap, ◌∙◌, Bool, true, false, List, [], ◌∷◌, ◌++◌, append_assoc, filter, arith,
  ◌==◌, ok, ◌>>=◌, >>=-cong, eq→==,
}
use ece.Int32.{inc, slt}
use ece.Map.{insert, lookup-insert}
use ece.Message.{Message}
use ece.State.{ExternalNode, MessageStore, insert_pointer, last_sequence_number_increment}
use ece.Mcast.{
  Run, emit, deliver, set_externals, external, c_string, count_delivery, multicast_deliver,
  undelivered, insert_sorted, sort_pointers, deliver_loop, process_undelivered,
}
use ece.Mcast.Pending.{is_pending, undelivered-filter}

abbrev pub AllAfter : ℕ → MessageStore → Type 0
AllAfter p [] = Unit
AllAfter p ((q, m) ∷ s) = (p < q) × AllAfter p s

-- The addresses ascend, as in any `set<Message*>`.
abbrev pub Ascends : MessageStore → Type 0
Ascends [] = Unit
Ascends ((p, m) ∷ s) = AllAfter p s × Ascends s

AllAfter-trans : (p q : ℕ) (s : MessageStore) → p < q → AllAfter q s → AllAfter p s
AllAfter-trans p q [] h a = tt
AllAfter-trans p q ((i, m) ∷ s) h a = (omega (arith, a.0), AllAfter-trans p q s h a.1)

insert_pointer-AllAfter :
    (i p : ℕ) (m : Message) (s : MessageStore)
    → i < p
    → AllAfter i s
    → AllAfter i (insert_pointer p m s)
unfolding insert_pointer
insert_pointer-AllAfter i p m [] h a = (h, tt)
insert_pointer-AllAfter i p m ((q, n) ∷ s) h a =
    ground (arith, insert_pointer-AllAfter i p m s h a.1)

-- Storing a message keeps the store in the order of the addresses.
pub insert_pointer-Ascends :
    (p : ℕ) (m : Message) (s : MessageStore) → Ascends s → Ascends (insert_pointer p m s)
unfolding insert_pointer
insert_pointer-Ascends p m [] a = (tt, tt)
insert_pointer-Ascends p m ((q, n) ∷ s) a =
    ground (
      arith,
      insert_pointer-Ascends p m s a.1,
      insert_pointer-AllAfter q p m s,
      AllAfter-trans p q s,
    )

filter-AllAfter :
    (f : ℕ × Message → Bool) (p : ℕ) (s : MessageStore) → AllAfter p s → AllAfter p (filter f s)
filter-AllAfter f p [] a = tt
filter-AllAfter f p ((q, m) ∷ s) a = ground (arith, filter-AllAfter f p s a.1)

filter-Ascends : (f : ℕ × Message → Bool) (s : MessageStore) → Ascends s → Ascends (filter f s)
filter-Ascends f [] a = tt
filter-Ascends f ((q, m) ∷ s) a = ground (arith, filter-AllAfter f q s a.0, filter-Ascends f s a.1)

insert_sorted-first :
    (p : ℕ) (m : Message) (s : MessageStore) → AllAfter p s → insert_sorted p m s ≡ (p, m) ∷ s
unfolding insert_sorted
insert_sorted-first p m [] a = refl
insert_sorted-first p m ((q, n) ∷ s) a = ground arith

pub sort_pointers-Ascends : (s : MessageStore) → Ascends s → sort_pointers s ≡ s
unfolding sort_pointers
sort_pointers-Ascends [] a = refl
sort_pointers-Ascends ((p, m) ∷ s) a =
    rw (sort_pointers-Ascends s a.1) (insert_sorted-first p m s a.0)

-- On a store in the order of the addresses, the sort changes nothing: the undelivered messages are
-- tried in the order of their addresses, and what their timestamps say plays no part.
pub process_undelivered-unsorted :
    (r : Run)
    → Ascends r.state.message_store
    → process_undelivered r
      ≡ (undelivered r.state.message_store r >>= λ pending. deliver_loop pending r)
unfolding process_undelivered
process_undelivered-unsorted r a =
    >>=-cong (undelivered r.state.message_store r)
      (λ pending. deliver_loop (sort_pointers pending) r) (λ pending. deliver_loop pending r)
      (λ pending h.
        ap (λ s. deliver_loop s r)
          (sort_pointers-Ascends pending (
            rw (undelivered-filter r r.state.message_store pending h)
              (filter-Ascends (is_pending r) r.state.message_store a))))

multicast_deliver-foreign :
    (m : Message) (r : Run) (e : ExternalNode)
    → (m.sender_id == r.state.node.id) ≡ false
    → external m.sender_id r ≡ ok e
    → multicast_deliver m r
      ≡ ok (
          emit (deliver m.sender_id (c_string m.text)) (
            set_externals
              (insert m.sender_id (last_sequence_number_increment e) r.state.external_nodes)
              r))
unfolding multicast_deliver count_delivery
multicast_deliver-foreign m r e f h = rw (f, h)

pub undelivered_two :
    (p q : ℕ) (a b : Message) (r : Run) (e f : ExternalNode)
    → (a.sender_id == r.state.node.id) ≡ false
    → (b.sender_id == r.state.node.id) ≡ false
    → external a.sender_id r ≡ ok e
    → external b.sender_id r ≡ ok f
    → slt e.last_sequence_number a.sequence_number ≡ true
    → slt f.last_sequence_number b.sequence_number ≡ true
    → undelivered ((p, a) ∷ (q, b) ∷ []) r ≡ ok ((p, a) ∷ (q, b) ∷ [])
unfolding undelivered
undelivered_two p q a b r e f fa fb ea eb sa sb = rw (fa, ea, fb, eb, sb, sa)

pub deliver_loop-next :
    (p : ℕ) (m : Message) (s : MessageStore) (r : Run) (e : ExternalNode)
    → (m.sender_id == r.state.node.id) ≡ false
    → external m.sender_id r ≡ ok e
    → m.sequence_number ≡ inc e.last_sequence_number
    → deliver_loop ((p, m) ∷ s) r
      ≡ deliver_loop s (
          emit (deliver m.sender_id (c_string m.text)) (
            set_externals
              (insert m.sender_id (last_sequence_number_increment e) r.state.external_nodes)
              r))
unfolding deliver_loop
deliver_loop-next p m s r e f h n =
    rw (
      h,
      eq→== m.sequence_number (inc e.last_sequence_number) n,
      multicast_deliver-foreign m r e f h,
    )

-- A delivery from another process leaves the entry of a process alone.
external-after :
    (i k : ℕ) (x e : ExternalNode) (text : List ℕ) (r : Run)
    → (i == k) ≡ false
    → external k r ≡ ok e
    → external k (emit (deliver i text) (set_externals (insert i x r.state.external_nodes) r))
      ≡ ok e
unfolding external emit
external-after i k x e text r d h = ground (arith, lookup-insert i k x r.state.external_nodes)

-- Two messages from two other processes, each the next one from its sender, are delivered in the
-- order of the addresses that the allocator gave them, whatever their timestamps say: also where
-- the second causally precedes the first.
pub causal_order_ignored :
    (p q : ℕ) (a b : Message) (r : Run) (e f : ExternalNode)
    → p < q
    → r.state.message_store ≡ (p, a) ∷ (q, b) ∷ []
    → (a.sender_id == r.state.node.id) ≡ false
    → (b.sender_id == r.state.node.id) ≡ false
    → (a.sender_id == b.sender_id) ≡ false
    → external a.sender_id r ≡ ok e
    → external b.sender_id r ≡ ok f
    → a.sequence_number ≡ inc e.last_sequence_number
    → b.sequence_number ≡ inc f.last_sequence_number
    → slt e.last_sequence_number a.sequence_number ≡ true
    → slt f.last_sequence_number b.sequence_number ≡ true
    → (t : Run) × (process_undelivered r ≡ ok t)
      × (t.out
          ≡ r.out
            ++ deliver a.sender_id (c_string a.text) ∷ deliver b.sender_id (c_string b.text) ∷ [])
unfolding process_undelivered emit
causal_order_ignored p q a b r e f pq store fa fb ab ea eb na nb sa sb =
    let r₁ : Run = emit (deliver a.sender_id (c_string a.text)) (
      set_externals (insert a.sender_id (last_sequence_number_increment e) r.state.external_nodes)
        r) in
    let r₂ : Run = emit (deliver b.sender_id (c_string b.text)) (
      set_externals (insert b.sender_id (last_sequence_number_increment f) r₁.state.external_nodes)
        r₁) in
    (
      r₂,
      ap (λ o. o >>= λ pending. deliver_loop (sort_pointers pending) r)
            (ap (λ s. undelivered s r) store ∙ undelivered_two p q a b r e f fa fb ea eb sa sb)
          ∙ ap (λ s. deliver_loop s r)
              (sort_pointers-Ascends ((p, a) ∷ (q, b) ∷ []) ((pq, tt), (tt, tt)))
          ∙ deliver_loop-next p a ((q, b) ∷ []) r e fa ea na
          ∙ deliver_loop-next q b [] r₁ f fb
              (external-after a.sender_id b.sender_id (last_sequence_number_increment e) f
                (c_string a.text) r ab eb)
              nb
          ∙ (unfold deliver_loop in refl),
      append_assoc r.out (deliver a.sender_id (c_string a.text) ∷ []) _,
    )
