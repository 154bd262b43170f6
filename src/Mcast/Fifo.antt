-- ===== src/Mcast/Fifo.antt =====
-- `processUndelivered` delivers the messages of each process in order.
use mathlib.Core.Path.{subst, ap₂}
use ece.Prelude.{
  filter, ℕ, zero, suc, length, append-nil, append_assoc, ◌≡◌, refl, sym, ◌∙◌, true, false, Option,
  none, some, List, [], ◌∷◌, ◌++◌, ◌==◌, if◌then◌else◌, ok, >>=-eq-ok, ok-injective, Bool-cases,
  inl, inr, ==→eq,
}
use ece.Int32.{inc}
use ece.Message.{Message}
use ece.State.{ExternalNode, MessageStore}
use ece.Mcast.{
  Event, deliver, Run, external, c_string, multicast_deliver, undelivered, sort_pointers,
  deliver_loop, process_undelivered,
}
use ece.Mcast.Progress.{last_of}
use ece.Mcast.Deliver.{
  IsCounted, Delivers, external-last, multicast_deliver-Delivers, Delivers-IsCounted,
}
use ece.Mcast.Pending.{
  is_pending, AreForeign, undelivered-filter, filter-AreForeign, sort_pointers-AreForeign,
}

-- Deliveries one after another, each of the message that is next from its sender.
pub data Delivered : Run → List Message → Run → Type 0 where
  done : (r : Run) → Delivered r [] r
  next :
      {r s t : Run} {m : Message} {ms : List Message}
      → (m.sender_id == r.state.node.id) ≡ false
      → (d : Delivers m r s) → m.sequence_number ≡ inc d.before
      → Delivered s ms t
      → Delivered r (m ∷ ms) t

Delivered-IsCounted : {r t : Run} {ms : List Message} → Delivered r ms t → IsCounted r → IsCounted t
Delivered-IsCounted (done r) c = c
Delivered-IsCounted (next f d e rest) c = Delivered-IsCounted rest (Delivers-IsCounted _ _ _ f d c)

next_number :
    {m : Message} {r s : Run} (d : Delivers m r s) (e : ExternalNode)
    → external m.sender_id r ≡ ok e
    → (m.sequence_number == inc e.last_sequence_number) ≡ true
    → m.sequence_number ≡ inc d.before
next_number {m} {r} d e p h =
    cc (==→eq m.sequence_number _ h, d.counted, external-last m.sender_id r e p)

-- Messages that are those of a store, in its order, with some left out.
pub data Picks : List Message → MessageStore → Type 0 where
  none_left : Picks [] []
  skip : {ms : List Message} {s : MessageStore} (q : ℕ × Message) → Picks ms s → Picks ms (q ∷ s)
  pick :
      {ms : List Message} {s : MessageStore} (p : ℕ) (m : Message)
      → Picks ms s
      → Picks (m ∷ ms) ((p, m) ∷ s)

deliver_loop-Delivered :
    (s : MessageStore) (r t : Run)
    → AreForeign r.state.node.id s
    → deliver_loop s r ≡ ok t
    → (ms : List Message) × Delivered r ms t × Picks ms s
unfolding deliver_loop
deliver_loop-Delivered [] r t a h =
    ([], subst (λ x. Delivered r [] x) (ok-injective h) (done r), none_left)
deliver_loop-Delivered ((p, m) ∷ s) r t a h =
    let (e, p₁, q₁) = >>=-eq-ok (external m.sender_id r) _ h in
    elim (Bool-cases (m.sequence_number == inc e.last_sequence_number)) [
      | inl is_next ↦
          let (r', p₂, q₂) = >>=-eq-ok (multicast_deliver m r) _ (rw is_next at q₁) in
          let d = multicast_deliver-Delivers m r r' a.0 p₂ in
          let (ms, ds, picks) = deliver_loop-Delivered s r' t (rw d.id a.1) q₂ in
          (m ∷ ms, next a.0 d (next_number d e p₁ is_next) ds, pick p m picks)
      | inr other ↦
          let (ms, ds, picks) = deliver_loop-Delivered s r t a.1 (rw other at q₁) in
          (ms, ds, skip (p, m) picks)
    ]

-- What happens outside for deliveries of messages.
abbrev pub delivery_events : List Message → List Event
delivery_events [] = []
delivery_events (m ∷ ms) = deliver m.sender_id (c_string m.text) ∷ delivery_events ms

Delivered-out :
    {r t : Run} {ms : List Message} → Delivered r ms t → t.out ≡ r.out ++ delivery_events ms
Delivered-out (done r) = sym (append-nil r.out)
Delivered-out (next {r} {m = m} {ms = ms} f d e rest) =
    Delivered-out rest
    ∙ rw d.out
        (append_assoc r.out (deliver m.sender_id (c_string m.text) ∷ []) (delivery_events ms))

-- The sequence numbers of the messages from a process, and n numbers in sequence.
abbrev pub numbers_from : ℕ → List Message → List ℕ
numbers_from k [] = []
numbers_from k (m ∷ ms) =
    if m.sender_id == k then m.sequence_number ∷ numbers_from k ms else numbers_from k ms

abbrev pub count_up : ℕ → ℕ → List ℕ
count_up zero i = []
count_up (suc n) i = i ∷ count_up n (inc i)

-- The n numbers that follow a last number; where no number is kept there are none.
abbrev pub in_sequence : Option ℕ → ℕ → List ℕ
in_sequence none n = []
in_sequence (some last) n = count_up n (inc last)

in_sequence-zero : (o : Option ℕ) → in_sequence o 0 ≡ []
in_sequence-zero none = refl
in_sequence-zero (some n) = refl

Delivered-fifo :
    {r t : Run} {ms : List Message}
    → Delivered r ms t
    → (k : ℕ)
    → numbers_from k ms
      ≡ in_sequence (last_of k r.state.external_nodes) (length (numbers_from k ms))
Delivered-fifo (done r) k = sym (in_sequence-zero (last_of k r.state.external_nodes))
Delivered-fifo (next {r} {m = m} {ms = ms} f d e rest) k = elim (Bool-cases (m.sender_id == k)) [
  | inl same ↦
      let counted : last_of k r.state.external_nodes ≡ some d.before =
        rw (==→eq m.sender_id k same) at d.counted in
      let tail = rw (d.last k, same) at (Delivered-fifo rest k) in
      rw (same, counted) (ap₂ (λ i is. i ∷ is) e tail)
  | inr other ↦ rw other (rw (d.last k, other) at (Delivered-fifo rest k))
]

-- A round of `processUndelivered` that succeeds delivers some of the stored messages of others that
-- are above the last ones delivered, each at most once and in the order of their addresses, and has
-- no other effect outside. Their sequence numbers are, for each sender, those that follow the last
-- one that was delivered before, in order and with no gap.
pub process_undelivered-fifo :
    (r t : Run)
    → IsCounted r
    → process_undelivered r ≡ ok t
    → (ms : List Message) × (t.out ≡ r.out ++ delivery_events ms)
      × Picks ms (sort_pointers (filter (is_pending r) r.state.message_store))
      × ((k : ℕ)
          → numbers_from k ms
            ≡ in_sequence (last_of k r.state.external_nodes) (length (numbers_from k ms)))
      × IsCounted t
unfolding process_undelivered
process_undelivered-fifo r t c h =
    let (pending, p, q) = >>=-eq-ok (undelivered r.state.message_store r) _ h in
    let store = r.state.message_store in
    let same = undelivered-filter r store pending p in
    let foreign : AreForeign r.state.node.id pending = rw same (filter-AreForeign r store) in
    let (ms, ds, picks) =
      deliver_loop-Delivered (sort_pointers pending) r t
        (sort_pointers-AreForeign r.state.node.id pending foreign) q in
    (
      ms,
      Delivered-out ds,
      subst (λ (s : MessageStore). Picks ms (sort_pointers s)) same picks,
      Delivered-fifo ds,
      Delivered-IsCounted ds c,
    )
