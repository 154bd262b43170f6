-- ===== src/Receive/Next.antt =====
-- A process that has delivered all that it stores receives the message that is next.
use ece.Prelude.{
  All, ℕ, ◌≡◌, refl, ◌∙◌, true, false, some, [], ◌∷◌, ◌++◌, arith, ==_self, ok, inr, if◌then◌else◌,
  ◌==◌,
}
use ece.Int32.{slt, sle, inc}
use ece.Map.{lookup-insert}
use ece.Message.{Message}
use ece.State.{
  last_sequence_number_increment, ExternalNode, MessageStore, store_message, insert_pointer,
}
use ece.State.Store.{IsFresh}
use ece.Mcast.{
  deliver, Run, emit, set_externals, external, c_string, clean_message_store, process_undelivered,
}
use ece.Mcast.Progress.{last_of, clean_message_store-Keeps}
use ece.Mcast.Clean.{ack_of, IsLagging, IsLagging-acks}
use ece.Mcast.Retransmit.{retransmission_requests-none}
use ece.Mcast.Next.{
  IsHeld, IsNext, IsExpected, IsNext-IsExpected, IsCaughtUp, undelivered-next,
  process_undelivered-next, delivered_externals, last_of-delivered,
}
use ece.Receive.Held.{
  insert_pointer-All, not_stored, not_duplicate, clean_returns, clean-IsCaughtUp, All-delivered,
  slt_refl,
}
use ece.Receive.{is_duplicate, receive_message}

-- What the message that is next comes to.
pub record Receives (z p : ℕ) (r : Run) (m : Message) (t : Run) : Type 0 where
  pub id : t.state.node.id ≡ r.state.node.id
  pub out : t.out ≡ r.out ++ deliver m.sender_id (c_string m.text) ∷ []
  pub last :
      (k : ℕ)
      → last_of k t.state.external_nodes
        ≡ (if m.sender_id == k then some m.sequence_number else last_of k r.state.external_nodes)
  pub fresh :
      (q : ℕ) → (p == q) ≡ false → IsFresh q r.state.message_store → IsFresh q t.state.message_store
  pub caught_up : IsCaughtUp t
  pub acknowledges : (k : ℕ) → ack_of z k t.state.external_nodes ≡ ack_of z k r.state.external_nodes
  pub lagging : All (IsLagging z t.state.external_nodes) t.state.message_store

-- The run after the delivery, before the clean-up.
abbrev after_delivery : ℕ → Message → ExternalNode → Run → Run
after_delivery p m e r = emit (deliver m.sender_id (c_string m.text)) (
    set_externals (delivered_externals r.state.node.id m e r.state.external_nodes)
      (record r { state = store_message p m r.state }))

after_delivery-last :
    (p : ℕ) (m : Message) (e : ExternalNode) (r : Run) (k : ℕ)
    → m.sequence_number ≡ inc e.last_sequence_number
    → last_of k (after_delivery p m e r).state.external_nodes
      ≡ (if m.sender_id == k then some m.sequence_number else last_of k r.state.external_nodes)
unfolding emit
after_delivery-last p m e r k n =
    last_of-delivered r.state.node.id m e r.state.external_nodes k ∙ rw n refl

insert_pointer-IsFresh :
    (q p : ℕ) (m : Message) (s : MessageStore)
    → (p == q) ≡ false
    → IsFresh q s
    → IsFresh q (insert_pointer p m s)
unfolding insert_pointer
insert_pointer-IsFresh q p m [] h f = (h, tt)
insert_pointer-IsFresh q p m ((k, n) ∷ s) h f = ground (arith, insert_pointer-IsFresh q p m s h f.1)

after_delivery-ack_of :
    (z p : ℕ) (m : Message) (e : ExternalNode) (r : Run) (k : ℕ)
    → (m.sender_id == z) ≡ false
    → ack_of z k (after_delivery p m e r).state.external_nodes ≡ ack_of z k r.state.external_nodes
unfolding emit
after_delivery-ack_of z p m e r k apart =
    rw
      (lookup-insert m.sender_id z (last_sequence_number_increment e) r.state.external_nodes, apart)
      refl

after_delivery-IsLagging :
    (z p : ℕ) (m : Message) (e : ExternalNode) (r : Run)
    → (m.sender_id == z) ≡ false
    → IsLagging z r.state.external_nodes (p, m)
    → All (IsLagging z r.state.external_nodes) r.state.message_store
    → All
        (IsLagging z (after_delivery p m e r).state.external_nodes)
        (after_delivery p m e r).state.message_store
after_delivery-IsLagging z p m e r apart own a =
    IsLagging-acks z r.state.external_nodes (after_delivery p m e r).state.external_nodes
      (after_delivery p m e r).state.message_store (λ k. after_delivery-ack_of z p m e r k apart)
      (unfold emit store_message in
        insert_pointer-All (IsLagging z r.state.external_nodes) p m r.state.message_store own a)

after_delivery-IsCaughtUp :
    (p : ℕ) (m : Message) (e : ExternalNode) (r : Run)
    → m.sequence_number ≡ inc e.last_sequence_number
    → slt e.last_sequence_number m.sequence_number ≡ true
    → last_of m.sender_id r.state.external_nodes ≡ some e.last_sequence_number
    → IsCaughtUp r
    → IsCaughtUp (after_delivery p m e r)
unfolding emit store_message
after_delivery-IsCaughtUp p m e r n u l a =
    let es = delivered_externals r.state.node.id m e r.state.external_nodes in
    insert_pointer-All (IsHeld r.state.node.id es) p m r.state.message_store
      (inr (
        m.sequence_number,
        last_of-delivered r.state.node.id m e r.state.external_nodes m.sender_id
            ∙ rw (==_self m.sender_id, n) refl,
        slt_refl m.sequence_number,
      ))
      (All-delivered r.state.node.id m e r.state.external_nodes r.state.message_store n u l a)

stored_process :
    (p : ℕ) (m : Message) (before : ℕ) (r : Run)
    → IsNext r m before
    → IsFresh p r.state.message_store
    → IsCaughtUp r
    → (e : ExternalNode) × IsExpected r m e
      × (e.last_sequence_number ≡ before)
      × (process_undelivered (record r { state = store_message p m r.state })
          ≡ ok (after_delivery p m e r))
unfolding store_message external
stored_process p m before r i f a =
    let (e, x, b) = IsNext-IsExpected r m before i in
    let r' : Run = record r { state = store_message p m r.state } in
    let x' : IsExpected r' m e = record {
      foreign = x.foreign;
      origin = x.origin;
      next = x.next;
      no_wrap = x.no_wrap;
    } in
    (
      e,
      x,
      b,
      process_undelivered-next r' p m e x' (undelivered-next r' p m e r.state.message_store x' f a),
    )

next_old : (n k : ℕ) → n ≡ k → sle n k ≡ true
unfolding sle
next_old n k h = ground (arith, h)

receive_message_lem :
    (p : ℕ) (m : Message) (r : Run) (e : ExternalNode) (t : Run)
    → external m.sender_id r ≡ ok e
    → is_duplicate m e r ≡ false
    → m.sequence_number ≡ inc e.last_sequence_number
    → process_undelivered (record r { state = store_message p m r.state })
      ≡ ok (after_delivery p m e r)
    → clean_message_store (after_delivery p m e r) ≡ ok t
    → receive_message p m r ≡ ok t
unfolding receive_message
receive_message_lem p m r e t o d n u c =
    rw
      (
        o,
        d,
        retransmission_requests-none m e.last_sequence_number
            (record r { state = store_message p m r.state })
            (next_old m.sequence_number (inc e.last_sequence_number) n),
        u,
      )
      c

-- A process that has delivered, of the others' messages, all that it stores, and receives the next
-- message of another process at a new address, delivers the text of it and nothing else, sends
-- nothing, and has delivered all that it stores again. (The number does not wrap, and some third
-- process is not known to have delivered that message or any that is stored.)
pub receive_message-Receives :
    (z p : ℕ) (m : Message) (before : ℕ) (r : Run)
    → IsNext r m before
    → IsFresh p r.state.message_store
    → IsCaughtUp r
    → (m.sender_id == z) ≡ false
    → IsLagging z r.state.external_nodes (p, m)
    → All (IsLagging z r.state.external_nodes) r.state.message_store
    → (t : Run) × (receive_message p m r ≡ ok t) × Receives z p r m t
receive_message-Receives z p m before r i f a apart lags all_lag =
    let (e, x, b, u) = stored_process p m before r i f a in
    let v = after_delivery p m e r in
    let last : last_of m.sender_id r.state.external_nodes ≡ some e.last_sequence_number =
      rw b i.last in
    let c = after_delivery-IsCaughtUp p m e r x.next x.no_wrap last a in
    let l = after_delivery-IsLagging z p m e r apart lags all_lag in
    let (t, h, y) = clean_returns z v c l in
    let same = clean_message_store-Keeps v t h in
    (
      t,
      receive_message_lem p m r e t x.origin
          (not_duplicate r m e x.no_wrap (
            not_stored r.state.node.id before r.state.external_nodes m r.state.message_store i.other
              i.last i.above a))
          x.next u h,
      record {
        out = y.out ∙ (unfold emit in refl);
        id = same.id ∙ (unfold emit store_message in refl);
        last = λ k. same.last k ∙ after_delivery-last p m e r k x.next;
        fresh = λ q other g. rw y.store (
            unfold emit store_message in
            insert_pointer-IsFresh q p m r.state.message_store other g);
        caught_up = clean-IsCaughtUp v t c h y;
        acknowledges = λ k. y.acknowledges z k ∙ after_delivery-ack_of z p m e r k apart;
        lagging = rw y.store (
            IsLagging-acks z v.state.external_nodes t.state.external_nodes v.state.message_store
              (λ k. y.acknowledges z k) l);
      },
    )
