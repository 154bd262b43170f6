-- ===== src/Mcast/Next.antt =====
-- A process that has delivered all that it stores receives the message that is next.
use ece.Prelude.{
  ℕ, ◌≡◌, ◌⊎◌, refl, ◌∙◌, Bool, true, false, Option, none, some, [], ◌∷◌, All, arith, ◌==◌, ==→eq,
  ==_self, if◌then◌else◌, ltb, ok, Bool-cases, inl, inr,
}
use ece.Int32.{slt, sle, inc}
use ece.Map.{Map, lookup, insert, lookup-insert}
use ece.Message.{Message}
use ece.State.{ExternalNode, MessageStore, insert_pointer, last_sequence_number_increment}
use ece.State.Store.{IsFresh}
use ece.Mcast.{
  deliver, Run, emit, set_externals, external, c_string, acknowledged_by_all, delivered_here,
  undelivered, insert_sorted, sort_pointers, deliver_loop, process_undelivered, multicast_deliver,
  count_delivery,
}
use ece.Mcast.Progress.{last_of, number_of, acknowledged_by_all-last}

-- A message of this process, or one that is not above the last one delivered from its sender.
abbrev pub IsHeld : ℕ → Map ExternalNode → ℕ × Message → Type 0
IsHeld own es (p, m) =
    ((m.sender_id == own) ≡ true)
    ⊎ (n : ℕ) × (last_of m.sender_id es ≡ some n) × (slt n m.sequence_number ≡ false)

-- The sender of the message is known.
abbrev pub IsKnown : ℕ → Map ExternalNode → ℕ × Message → Type 0
IsKnown own es (p, m) = ((m.sender_id == own) ≡ true) ⊎ (n : ℕ) × (last_of m.sender_id es ≡ some n)

external-some :
    (k : ℕ) (r : Run) (e : ExternalNode)
    → lookup k r.state.external_nodes ≡ some e
    → external k r ≡ ok e
unfolding external
external-some k r e h = ground (arith, h)

pub last-external :
    (k n : ℕ) (r : Run)
    → last_of k r.state.external_nodes ≡ some n
    → (e : ExternalNode) × (external k r ≡ ok e) × (e.last_sequence_number ≡ n)
last-external k n r h = of (lookup k r.state.external_nodes) refl h
  where
    of :
        (o : Option ExternalNode)
        → lookup k r.state.external_nodes ≡ o
        → number_of o ≡ some n
        → (e : ExternalNode) × (external k r ≡ ok e) × (e.last_sequence_number ≡ n)
    of none g i = cc
    of (some e) g i = (e, external-some k r e g, cc i)

undelivered-skip :
    (r : Run) (q : ℕ × Message) (s pending : MessageStore)
    → IsHeld r.state.node.id r.state.external_nodes q
    → undelivered s r ≡ ok pending
    → undelivered (q ∷ s) r ≡ ok pending
unfolding undelivered
undelivered-skip r (p, m) s pending (inl own) h = rw own h
undelivered-skip r (p, m) s pending (inr (n, g, l)) h =
    elim (Bool-cases (m.sender_id == r.state.node.id)) [
      | inl own ↦ rw own h
      | inr other ↦ let (e, o, k) = last-external m.sender_id n r g in rw (other, o, h, k, l) refl
    ]

undelivered-IsHeld :
    (r : Run) (s : MessageStore)
    → All (IsHeld r.state.node.id r.state.external_nodes) s
    → undelivered s r ≡ ok []
unfolding undelivered
undelivered-IsHeld r [] a = refl
undelivered-IsHeld r (q ∷ s) a = undelivered-skip r q s [] a.0 (undelivered-IsHeld r s a.1)

-- The message that is next from a sender other than this process, whose last one has that number.
pub record IsNext (r : Run) (m : Message) (before : ℕ) : Type 0 where
  pub other : (m.sender_id == r.state.node.id) ≡ false
  pub last : last_of m.sender_id r.state.external_nodes ≡ some before
  pub follows : m.sequence_number ≡ inc before
  pub above : slt before m.sequence_number ≡ true

-- The same with what is kept for the sender.
pub record IsExpected (r : Run) (m : Message) (e : ExternalNode) : Type 0 where
  pub foreign : (m.sender_id == r.state.node.id) ≡ false
  pub origin : external m.sender_id r ≡ ok e
  pub next : m.sequence_number ≡ inc e.last_sequence_number
  pub no_wrap : slt e.last_sequence_number m.sequence_number ≡ true

pub undelivered-next :
    (r : Run) (p : ℕ) (m : Message) (e : ExternalNode) (s : MessageStore)
    → IsExpected r m e
    → IsFresh p s
    → All (IsHeld r.state.node.id r.state.external_nodes) s
    → undelivered (insert_pointer p m s) r ≡ ok ((p, m) ∷ [])
unfolding insert_pointer
undelivered-next r p m e [] i f a = unfold undelivered in rw (i.foreign, i.origin, i.no_wrap) refl
undelivered-next r p m e ((q, n) ∷ s) i f a = rw f.0 (elim (Bool-cases (ltb p q)) [
  | inl before ↦ rw before (
      unfold undelivered in
      rw (i.foreign, i.origin, i.no_wrap, undelivered-IsHeld r ((q, n) ∷ s) a) refl)
  | inr after ↦ rw after (
      undelivered-skip r (q, n) (insert_pointer p m s) _ a.0 (undelivered-next r p m e s i f.1 a.1))
])

multicast_deliver-next :
    (r : Run) (m : Message) (e : ExternalNode)
    → IsExpected r m e
    → multicast_deliver m r
      ≡ ok (
          emit (deliver m.sender_id (c_string m.text)) (
            set_externals
              (insert m.sender_id (last_sequence_number_increment e) r.state.external_nodes)
              r))
unfolding multicast_deliver count_delivery
multicast_deliver-next r m e i = rw (i.foreign, i.origin) refl

pub process_undelivered-next :
    (r : Run) (p : ℕ) (m : Message) (e : ExternalNode)
    → IsExpected r m e
    → undelivered r.state.message_store r ≡ ok ((p, m) ∷ [])
    → process_undelivered r
      ≡ ok (
          emit (deliver m.sender_id (c_string m.text)) (
            set_externals
              (insert m.sender_id (last_sequence_number_increment e) r.state.external_nodes)
              r))
unfolding process_undelivered sort_pointers insert_sorted deliver_loop multicast_deliver emit
process_undelivered-next r p m e i u =
    rw (u, i.origin, i.next, ==_self (inc e.last_sequence_number), multicast_deliver-next r m e i)
      refl

pub delivered_here-IsKnown :
    (r : Run) (q : ℕ × Message)
    → IsKnown r.state.node.id r.state.external_nodes q
    → (b : Bool) × (delivered_here q.1 r ≡ ok b)
unfolding delivered_here
delivered_here-IsKnown r (p, m) (inl own) = (true, rw own refl)
delivered_here-IsKnown r (p, m) (inr (n, h)) = elim (Bool-cases (m.sender_id == r.state.node.id)) [
  | inl own ↦ (true, rw own refl)
  | inr other ↦
      let (e, g, l) = last-external m.sender_id n r h in
      (sle m.sequence_number e.last_sequence_number, rw (other, g) refl)
]

pub IsKnown-read :
    (own i j : ℕ) (es : Map ExternalNode) (s : MessageStore)
    → All (IsKnown own es) s
    → All (IsKnown own (acknowledged_by_all i j es).1) s
IsKnown-read own i j es [] a = tt
IsKnown-read own i j es ((p, m) ∷ s) (inl h, a) = (inl h, IsKnown-read own i j es s a)
IsKnown-read own i j es ((p, m) ∷ s) (inr (n, h), a) =
    (inr (n, acknowledged_by_all-last i j es m.sender_id ∙ h), IsKnown-read own i j es s a)

pub IsNext-IsExpected :
    (r : Run) (m : Message) (before : ℕ)
    → IsNext r m before
    → (e : ExternalNode) × IsExpected r m e × (e.last_sequence_number ≡ before)
IsNext-IsExpected r m before i =
    let (e, o, k) = last-external m.sender_id before r i.last in
    (e, record { foreign = i.other; origin = o; next = rw k i.follows; no_wrap = rw k i.above }, k)

-- A process that delivered, from the others, all that it stores.
abbrev pub IsCaughtUp : Run → Type 0
IsCaughtUp r = All (IsHeld r.state.node.id r.state.external_nodes) r.state.message_store

module _ (own : ℕ) (m : Message) (e : ExternalNode) (es : Map ExternalNode) where
  abbrev pub delivered_externals : Map ExternalNode
  delivered_externals = insert m.sender_id (last_sequence_number_increment e) es

  pub last_of-delivered :
      (k : ℕ)
      → last_of k delivered_externals
        ≡ (if m.sender_id == k then some (inc e.last_sequence_number) else last_of k es)
  unfolding last_sequence_number_increment
  last_of-delivered k =
      ground (arith, lookup-insert m.sender_id k (last_sequence_number_increment e) es)

  pub IsHeld-delivered :
      (q : ℕ) (n : Message)
      → m.sequence_number ≡ inc e.last_sequence_number
      → slt e.last_sequence_number m.sequence_number ≡ true
      → last_of m.sender_id es ≡ some e.last_sequence_number
      → IsHeld own es (q, n)
      → IsHeld own delivered_externals (q, n)
  IsHeld-delivered q n next above last (inl h) = inl h
  IsHeld-delivered q n next above last (inr (b, h, l)) =
      elim (Bool-cases (m.sender_id == n.sender_id)) [
        | inl same ↦
            let b' : b ≡ e.last_sequence_number =
              cc (h, last, ==→eq m.sender_id n.sender_id same) in
            inr (
              inc e.last_sequence_number,
              last_of-delivered n.sender_id ∙ rw same refl,
              unfold slt in ground (arith, b', next, above, l),
            )
        | inr other ↦ inr (b, last_of-delivered n.sender_id ∙ rw other h, l)
      ]
