-- ===== src/Mcast/Clean.antt =====
-- `cleanMessageStore`: when it erases, and what it does where it does not.
use ece.Prelude.{
  ℕ, ◌≡◌, refl, sym, ◌∙◌, Bool, true, false, ◌&&◌, ◌||◌, not, Option, none, some, [], ◌∷◌, fault,
  All, erased_iterator, arith, ◌==◌, if◌then◌else◌, ok, >>=-eq-ok, ok-injective, Bool-cases, inl,
  inr,
}
use ece.Int32.{slt, sle}
use ece.Map.{Map, lookup, get_or-touch}
use ece.Message.{Message}
use ece.State.{ExternalNode, MessageStore, acknowledged, after_read}
use ece.Mcast.{
  Run, set_externals, external, acknowledged_by_all, delivered_here, clean_loop,
  clean_message_store,
}
use ece.Mcast.Progress.{last_of, acknowledged_by_all-last}
use ece.Mcast.Deliver.{external-last}
use ece.Mcast.Next.{IsKnown, delivered_here-IsKnown, IsKnown-read}

-- Some process of the group has not acknowledged the message numbered n of a sender.
abbrev pub some_lacks : ℕ → ℕ → Map ExternalNode → Bool
some_lacks sender_id n [] = false
some_lacks sender_id n ((k, e) ∷ es) = slt (acknowledged sender_id e) n || some_lacks sender_id n es

abbrev pub reached : Option ℕ → ℕ → Bool
reached none n = false
reached (some last) n = sle n last

-- This process has delivered the message, and so has every other process of the group.
abbrev pub is_done : ℕ → Map ExternalNode → Message → Bool
is_done own es m =
    (m.sender_id == own || reached (last_of m.sender_id es) m.sequence_number)
    && not (some_lacks m.sender_id m.sequence_number es)

acknowledged-after_read :
    (s k : ℕ) (e : ExternalNode) → acknowledged s (after_read k e) ≡ acknowledged s e
unfolding after_read
acknowledged-after_read s k e = get_or-touch k s 0 e.delivery_ack_list

acknowledged_by_all-eq :
    (s n : ℕ) (es : Map ExternalNode) → (acknowledged_by_all s n es).0 ≡ not (some_lacks s n es)
unfolding acknowledged_by_all
acknowledged_by_all-eq s n [] = refl
acknowledged_by_all-eq s n ((k, e) ∷ es) = ground (arith, acknowledged_by_all-eq s n es)

some_lacks-read :
    (s n i j : ℕ) (es : Map ExternalNode)
    → some_lacks s n (acknowledged_by_all i j es).1 ≡ some_lacks s n es
unfolding acknowledged_by_all
some_lacks-read s n i j [] = refl
some_lacks-read s n i j ((k, e) ∷ es) =
    ground (arith, some_lacks-read s n i j es, acknowledged-after_read s i e)

-- The number up to which process z has acknowledged the messages of process k.
abbrev pub acks_in : ℕ → Option ExternalNode → Option ℕ
acks_in k none = none
acks_in k (some e) = some (acknowledged k e)

abbrev pub ack_of : ℕ → ℕ → Map ExternalNode → Option ℕ
ack_of z k es = acks_in k (lookup z es)

acknowledged_by_all-ack_of :
    (i j z k : ℕ) (es : Map ExternalNode)
    → ack_of z k (acknowledged_by_all i j es).1 ≡ ack_of z k es
unfolding acknowledged_by_all lookup
acknowledged_by_all-ack_of i j z k [] = refl
acknowledged_by_all-ack_of i j z k ((q, e) ∷ es) =
    ground (arith, acknowledged_by_all-ack_of i j z k es, acknowledged-after_read k i e)

some_lacks-lookup :
    (s n z a : ℕ) (es : Map ExternalNode)
    → ack_of z s es ≡ some a
    → slt a n ≡ true
    → some_lacks s n es ≡ true
unfolding lookup
some_lacks-lookup s n z a [] h l = cc
some_lacks-lookup s n z a ((k, e) ∷ es) h l = elim (Bool-cases (k == z)) [
  | inl here ↦
      let own : some (acknowledged s e) ≡ some a = rw here at h in
      let same : acknowledged s e ≡ a = cc own in rw (same, l) refl
  | inr other ↦ let rest = some_lacks-lookup s n z a es (rw other at h) l in ground (arith, rest)
]

is_done-read :
    (own i j : ℕ) (es : Map ExternalNode) (m : Message)
    → is_done own (acknowledged_by_all i j es).1 m ≡ is_done own es m
is_done-read own i j es m = rw (
  some_lacks-read m.sender_id m.sequence_number i j es,
  acknowledged_by_all-last i j es m.sender_id,
)

delivered_here-eq :
    (m : Message) (r : Run) (b : Bool)
    → delivered_here m r ≡ ok b
    → b ≡ (
        m.sender_id == r.state.node.id
        || reached (last_of m.sender_id r.state.external_nodes) m.sequence_number)
unfolding delivered_here
delivered_here-eq m r b h = elim (Bool-cases (m.sender_id == r.state.node.id)) [
  | inl own ↦ rw own (sym (ok-injective (rw own at h)))
  | inr other ↦
      let (e, p, q) = >>=-eq-ok (external m.sender_id r) _ (rw other at h) in
      rw (other, external-last m.sender_id r e p) (sym (ok-injective q))
]

-- Some message of a store is done.
abbrev pub some_done : ℕ → Map ExternalNode → MessageStore → Bool
some_done own es [] = false
some_done own es ((p, m) ∷ s) = is_done own es m || some_done own es s

some_done-read :
    (own i j : ℕ) (es : Map ExternalNode) (s : MessageStore)
    → some_done own (acknowledged_by_all i j es).1 s ≡ some_done own es s
some_done-read own i j es [] = refl
some_done-read own i j es ((p, m) ∷ s) =
    rw (is_done-read own i j es m, some_done-read own i j es s) refl

-- What a clean-up changes: it reads the acknowledgements of some process.
pub record Reads (r t : Run) : Type 0 where
  pub store : t.state.message_store ≡ r.state.message_store
  pub out : t.out ≡ r.out
  pub acknowledges :
      (z k : ℕ) → ack_of z k t.state.external_nodes ≡ ack_of z k r.state.external_nodes

clean_round-eq :
    (m : Message) (s : MessageStore) (r : Run) (p : ℕ) (b : Bool)
    → delivered_here m r ≡ ok b
    → clean_loop ((p, m) ∷ s) r ≡ (
        if is_done r.state.node.id r.state.external_nodes m
        then fault erased_iterator
        else clean_loop s (
            set_externals
              (acknowledged_by_all m.sender_id m.sequence_number r.state.external_nodes).1
              r))
unfolding clean_loop
clean_round-eq m s r p b h =
    let choice : (b && (acknowledged_by_all m.sender_id m.sequence_number r.state.external_nodes).0)
        ≡ is_done r.state.node.id r.state.external_nodes m =
      rw (
        delivered_here-eq m r b h,
        acknowledged_by_all-eq m.sender_id m.sequence_number r.state.external_nodes,
      ) in
    rw (h, choice) refl

clean_loop-some_done :
    (s : MessageStore) (r : Run)
    → All (IsKnown r.state.node.id r.state.external_nodes) s
    → (some_done r.state.node.id r.state.external_nodes s ≡ true
        → clean_loop s r ≡ fault erased_iterator)
      × (some_done r.state.node.id r.state.external_nodes s ≡ false
          → (t : Run) × (clean_loop s r ≡ ok t) × Reads r t)
clean_loop-some_done [] r a = (
  λ h. cc,
  λ h. (
    r,
    (unfold clean_loop in refl),
    record { store = refl; out = refl; acknowledges = λ z k. refl },
  ),
)
clean_loop-some_done ((p, m) ∷ s) r (known, a) =
    let own = r.state.node.id in
    let es = r.state.external_nodes in
    let fs = (acknowledged_by_all m.sender_id m.sequence_number es).1 in
    let (b, here) = delivered_here-IsKnown r (p, m) known in
    let round = clean_round-eq m s r p b here in
    let same = some_done-read own m.sender_id m.sequence_number es s in
    let (bad, good) =
      clean_loop-some_done s (set_externals fs r)
        (IsKnown-read own m.sender_id m.sequence_number es s a) in
    elim (Bool-cases (is_done own es m)) [
      | inl done ↦ (λ h. round ∙ rw done refl, λ h. cc (rw done at h))
      | inr kept ↦ (
        λ h. round ∙ rw kept (bad (same ∙ rw kept at h)),
        λ h.
            let (t, e, x) = good (same ∙ rw kept at h) in
            (
              t,
              round ∙ rw kept e,
              record {
                store = x.store;
                out = x.out;
                acknowledges = λ z k.
                    x.acknowledges z k
                    ∙ acknowledged_by_all-ack_of m.sender_id m.sequence_number z k es;
              },
            ),
      )
    ]

-- Process z, as far as is known, has not delivered the message.
abbrev pub IsLagging : ℕ → Map ExternalNode → ℕ × Message → Type 0
IsLagging z es (p, m) =
    (a : ℕ) × (ack_of z m.sender_id es ≡ some a) × (slt a m.sequence_number ≡ true)

pub some_done-IsLagging :
    (own z : ℕ) (es : Map ExternalNode) (s : MessageStore)
    → All (IsLagging z es) s
    → some_done own es s ≡ false
some_done-IsLagging own z es [] a = refl
some_done-IsLagging own z es ((p, m) ∷ s) ((n, h, l), a) =
    let lacks = some_lacks-lookup m.sender_id m.sequence_number z n es h l in
    let rest = some_done-IsLagging own z es s a in ground (arith, lacks, rest)

pub IsLagging-acks :
    (z : ℕ) (es fs : Map ExternalNode) (s : MessageStore)
    → ((k : ℕ) → ack_of z k fs ≡ ack_of z k es)
    → All (IsLagging z es) s
    → All (IsLagging z fs) s
IsLagging-acks z es fs [] h a = tt
IsLagging-acks z es fs ((p, m) ∷ s) h ((n, g, l), a) =
    ((n, h m.sender_id ∙ g, l), IsLagging-acks z es fs s h a)

-- A clean-up of a store whose senders are all known: where this process and every other one of the
-- group have delivered some message of the store, as far as this process knows, it erases a message
-- and does what C++ leaves undefined; where there is no such message it ends, with the store as it
-- was, and sends and delivers nothing.
pub clean_message_store-some_done :
    (r : Run)
    → All (IsKnown r.state.node.id r.state.external_nodes) r.state.message_store
    → (some_done r.state.node.id r.state.external_nodes r.state.message_store ≡ true
        → clean_message_store r ≡ fault erased_iterator)
      × (some_done r.state.node.id r.state.external_nodes r.state.message_store ≡ false
          → (t : Run) × (clean_message_store r ≡ ok t) × Reads r t)
unfolding clean_message_store
clean_message_store-some_done r a = clean_loop-some_done r.state.message_store r a
