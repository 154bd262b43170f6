-- ===== src/Receive/Held.antt =====
-- What holds of a store whose messages, if they are from others, are delivered.
use ece.Prelude.{
  ℕ, ◌≡◌, refl, ◌∙◌, true, false, some, [], ◌∷◌, All, arith, ◌==◌, ==→eq, ltb, ok, Bool-cases, inl,
  inr,
}
use ece.Int32.{slt, sle, inc}
use ece.Map.{Map}
use ece.Message.{Message}
use ece.State.{ExternalNode, MessageStore, matches, find_message, get_message, insert_pointer}
use ece.Mcast.{Run, clean_message_store}
use ece.Mcast.Progress.{last_of, clean_message_store-Keeps}
use ece.Mcast.Clean.{Reads, IsLagging, some_done-IsLagging, clean_message_store-some_done}
use ece.Mcast.Next.{IsHeld, IsKnown, IsCaughtUp, delivered_externals, IsHeld-delivered}
use ece.Receive.{is_stored, is_duplicate}

module _ (P : ℕ × Message → Type 0) where
  pub insert_pointer-All :
      (p : ℕ) (m : Message) (s : MessageStore) → P (p, m) → All P s → All P (insert_pointer p m s)
  unfolding insert_pointer
  insert_pointer-All p m [] h a = (h, tt)
  insert_pointer-All p m ((q, n) ∷ s) h a = elim (Bool-cases (q == p)) [
    | inl same ↦ rw same a
    | inr other ↦ rw other (elim (Bool-cases (ltb p q)) [
      | inl before ↦ rw before (h, a)
      | inr after ↦ rw after (a.0, insert_pointer-All p m s h a.1)
    ])
  ]

All-IsKnown :
    (own : ℕ) (es : Map ExternalNode) (s : MessageStore)
    → All (IsHeld own es) s
    → All (IsKnown own es) s
All-IsKnown own es [] a = tt
All-IsKnown own es ((p, m) ∷ s) (inl h, a) = (inl h, All-IsKnown own es s a)
All-IsKnown own es ((p, m) ∷ s) (inr (n, h, l), a) = (inr (n, h), All-IsKnown own es s a)

held_before :
    (own before : ℕ) (es : Map ExternalNode) (p : ℕ) (m n : Message)
    → (m.sender_id == own) ≡ false
    → last_of m.sender_id es ≡ some before
    → slt before m.sequence_number ≡ true
    → n.sender_id ≡ m.sender_id
    → n.sequence_number ≡ m.sequence_number
    → IsHeld own es (p, n)
    → ⊥
held_before own before es p m n f l h d e (inl g) = cc (f, g, d)
held_before own before es p m n f l h d e (inr (b, g, k)) =
    let b' : b ≡ before = cc (g, l, d) in cc (b', h, k, e)

-- What comes next is not stored yet.
pub not_stored :
    (own before : ℕ) (es : Map ExternalNode) (m : Message) (s : MessageStore)
    → (m.sender_id == own) ≡ false
    → last_of m.sender_id es ≡ some before
    → slt before m.sequence_number ≡ true
    → All (IsHeld own es) s
    → is_stored (find_message m.sender_id m.sequence_number s) ≡ false
unfolding find_message
not_stored own before es m [] f l h a = refl
not_stored own before es m ((p, n) ∷ s) f l h (held, a) =
    elim (Bool-cases (matches m.sender_id m.sequence_number n)) [
      | inl found ↦
          let d : (n.sender_id == m.sender_id) ≡ true = ground arith in
          let e : (n.sequence_number == m.sequence_number) ≡ true = ground arith in
          absurd (
            held_before own before es p m n f l h (==→eq n.sender_id m.sender_id d)
              (==→eq n.sequence_number m.sequence_number e) held)
      | inr other ↦ rw other (not_stored own before es m s f l h a)
    ]

pub not_duplicate :
    (r : Run) (m : Message) (e : ExternalNode)
    → slt e.last_sequence_number m.sequence_number ≡ true
    → is_stored (find_message m.sender_id m.sequence_number r.state.message_store) ≡ false
    → is_duplicate m e r ≡ false
unfolding is_duplicate get_message sle slt
not_duplicate r m e h g = ground arith

-- The clean-up where some process has not delivered what is stored.
pub clean_returns :
    (z : ℕ) (r : Run)
    → IsCaughtUp r
    → All (IsLagging z r.state.external_nodes) r.state.message_store
    → (t : Run) × (clean_message_store r ≡ ok t) × Reads r t
clean_returns z r a l =
    (clean_message_store-some_done r
        (All-IsKnown r.state.node.id r.state.external_nodes r.state.message_store a)).1
      (some_done-IsLagging r.state.node.id z r.state.external_nodes r.state.message_store l)

pub IsHeld-last :
    (own : ℕ) (es fs : Map ExternalNode) (s : MessageStore)
    → ((k : ℕ) → last_of k fs ≡ last_of k es)
    → All (IsHeld own es) s
    → All (IsHeld own fs) s
IsHeld-last own es fs [] h a = tt
IsHeld-last own es fs ((p, m) ∷ s) h (inl g, a) = (inl g, IsHeld-last own es fs s h a)
IsHeld-last own es fs ((p, m) ∷ s) h (inr (n, g, l), a) =
    (inr (n, h m.sender_id ∙ g, l), IsHeld-last own es fs s h a)

-- A clean-up of a process that is caught up.
pub clean-IsCaughtUp :
    (r t : Run) → IsCaughtUp r → clean_message_store r ≡ ok t → Reads r t → IsCaughtUp t
clean-IsCaughtUp r t a h x =
    let same = clean_message_store-Keeps r t h in
    rw (x.store, same.id)
      (IsHeld-last r.state.node.id r.state.external_nodes t.state.external_nodes
        r.state.message_store same.last a)

pub All-delivered :
    (own : ℕ) (m : Message) (e : ExternalNode) (es : Map ExternalNode) (s : MessageStore)
    → m.sequence_number ≡ inc e.last_sequence_number
    → slt e.last_sequence_number m.sequence_number ≡ true
    → last_of m.sender_id es ≡ some e.last_sequence_number
    → All (IsHeld own es) s
    → All (IsHeld own (delivered_externals own m e es)) s
All-delivered own m e es [] n u l a = tt
All-delivered own m e es ((q, k) ∷ s) n u l (h, a) =
    (IsHeld-delivered own m e es q k n u l h, All-delivered own m e es s n u l a)

pub slt_refl : (n : ℕ) → slt n n ≡ false
unfolding slt
slt_refl n = ground arith
