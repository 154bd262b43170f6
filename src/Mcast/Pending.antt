-- ===== src/Mcast/Pending.antt =====
-- The messages of the store that `processUndelivered` tries to deliver.
use ece.Prelude.{
  ℕ, ◌≡◌, sym, Bool, false, Option, none, some, [], ◌∷◌, arith, ◌==◌, if◌then◌else◌, ok, ◌&&◌, not,
  filter, >>=-eq-ok, ok-injective, Bool-cases, inl, inr,
}
use ece.Int32.{slt}
use ece.Message.{Message}
use ece.State.{ExternalNode, MessageStore}
use ece.Mcast.{Run, external, undelivered, insert_sorted, sort_pointers}
use ece.Mcast.Progress.{last_of}
use ece.Mcast.Deliver.{external-last}

-- Every message of a list is from another process.
abbrev pub AreForeign : ℕ → MessageStore → Type 0
AreForeign own [] = Unit
AreForeign own ((p, m) ∷ s) = ((m.sender_id == own) ≡ false) × AreForeign own s

abbrev pub after_last : Option ℕ → ℕ → Bool
after_last none n = false
after_last (some last) n = slt last n

-- The message is from another process and comes after the last one delivered from it.
abbrev pub is_pending : Run → ℕ × Message → Bool
is_pending r (p, m) =
    not (m.sender_id == r.state.node.id)
    && after_last (last_of m.sender_id r.state.external_nodes) m.sequence_number

module _ (r : Run) where
  undelivered_foreign :
      (p : ℕ) (m : Message) (s pending : MessageStore)
      → (m.sender_id == r.state.node.id) ≡ false
      → undelivered ((p, m) ∷ s) r ≡ ok pending
      → (e : ExternalNode) × (rest : MessageStore) × (external m.sender_id r ≡ ok e)
        × (undelivered s r ≡ ok rest)
        × (◌≡◌ {A = MessageStore}
            (if slt e.last_sequence_number m.sequence_number then (p, m) ∷ rest else rest)
            pending)
  unfolding undelivered
  undelivered_foreign p m s pending f h =
      let (e, p₁, q₁) = >>=-eq-ok (external m.sender_id r) _ (rw f at h) in
      let (rest, p₂, q₂) = >>=-eq-ok (undelivered s r) _ q₁ in (e, rest, p₁, p₂, ok-injective q₂)

  -- The undelivered messages are the pending ones of the store, in its order.
  pub undelivered-filter :
      (s pending : MessageStore) → undelivered s r ≡ ok pending → pending ≡ filter (is_pending r) s
  undelivered-filter [] pending h = sym (ok-injective (unfold undelivered in h))
  undelivered-filter ((p, m) ∷ s) pending h = elim (Bool-cases (m.sender_id == r.state.node.id)) [
    | inl own ↦ rw own (undelivered-filter s pending (unfold undelivered in (rw own at h)))
    | inr f ↦
        let (e, rest, p₁, p₂, q) = undelivered_foreign p m s pending f h in
        ground (arith, external-last m.sender_id r e p₁, undelivered-filter s rest p₂)
  ]

  pub filter-AreForeign : (s : MessageStore) → AreForeign r.state.node.id (filter (is_pending r) s)
  filter-AreForeign [] = tt
  filter-AreForeign ((p, m) ∷ s) = ground (arith, filter-AreForeign s)

insert_sorted-AreForeign :
    (own p : ℕ) (m : Message) (s : MessageStore)
    → (m.sender_id == own) ≡ false
    → AreForeign own s
    → AreForeign own (insert_sorted p m s)
unfolding insert_sorted
insert_sorted-AreForeign own p m [] h a = (h, tt)
insert_sorted-AreForeign own p m ((q, n) ∷ s) h a =
    ground (arith, insert_sorted-AreForeign own p m s h a.1)

pub sort_pointers-AreForeign :
    (own : ℕ) (s : MessageStore) → AreForeign own s → AreForeign own (sort_pointers s)
unfolding sort_pointers
sort_pointers-AreForeign own [] a = tt
sort_pointers-AreForeign own ((p, m) ∷ s) a =
    insert_sorted-AreForeign own p m _ a.0 (sort_pointers-AreForeign own s a.1)
