-- ===== src/Receive/Merges.antt =====
-- What `receive` does before it looks at the type of the message.
use ece.Prelude.{
  ℕ, ◌≡◌, refl, sym, ◌∙◌, Bool, true, false, some, List, [], ◌∷◌, ◌++◌, append-nil, append_assoc,
  arith, ◌==◌, ok, if◌then◌else◌,
}
use ece.Int32.{slt}
use ece.Map.{lookup-insert, Map, insert}
use ece.Timestamp.{Timestamp, update}
use ece.Message.{Message}
use ece.State.{update_delivery_ack_list, update_failed_nodes}
use ece.Mcast.{Event, reset_timer, Run, emit, set_node, set_externals}
use ece.Mcast.Clean.{ack_of}
use ece.Mcast.Progress.{
  last_of, deliveries, deliveries-append, SameProgress, SameProgress-refl, SameProgress-trans,
  emit-SameProgress,
}
use ece.Mcast.Next.{IsNext, IsCaughtUp, last-external}
use ece.Receive.{reset_timers, merge_timestamp, merge_state}
use ece.Receive.Counted.{set_node-SameProgress, merge_state-Keeps}
use ece.Receive.Held.{IsHeld-last}

module _ (z : ℕ) where
  -- Nothing is stored and nothing delivered.
  pub record Merges (r s : Run) : Type 0 where
    pub progress : SameProgress r s
    pub store : s.state.message_store ≡ r.state.message_store
    pub events : List Event
    pub out : s.out ≡ r.out ++ events
    pub quiet : (k : ℕ) → deliveries k events ≡ 0
    pub acknowledges :
        (k : ℕ) → ack_of z k s.state.external_nodes ≡ ack_of z k r.state.external_nodes

  pub Merges-trans : (r s t : Run) → Merges r s → Merges s t → Merges r t
  Merges-trans r s t a b = record {
    progress = SameProgress-trans a.progress b.progress;
    store = b.store ∙ a.store;
    events = a.events ++ b.events;
    out = b.out ∙ rw a.out (append_assoc r.out a.events b.events);
    quiet = λ k. omega (arith, deliveries-append k a.events b.events, a.quiet k, b.quiet k);
    acknowledges = λ k. b.acknowledges k ∙ a.acknowledges k;
  }

  Merges-refl : (r : Run) → Merges r r
  Merges-refl r = record {
    progress = SameProgress-refl r;
    store = refl;
    events = [];
    out = sym (append-nil r.out);
    quiet = λ k. refl;
    acknowledges = λ k. refl;
  }

  reset_timer-Merges :
      (grew : Bool) (k : ℕ) (r : Run) → Merges r (if grew then emit (reset_timer k) r else r)
  unfolding emit
  reset_timer-Merges true k r = record {
    progress = emit-SameProgress (reset_timer k) r (λ j. refl);
    store = refl;
    events = reset_timer k ∷ [];
    out = refl;
    quiet = λ j. refl;
    acknowledges = λ k. refl;
  }
  reset_timer-Merges false k r = Merges-refl r

  reset_timers-Merges : (diff : Map ℕ) (r : Run) → Merges r (reset_timers diff r)
  unfolding reset_timers
  reset_timers-Merges [] r = Merges-refl r
  reset_timers-Merges ((k, d) ∷ diff) r =
      Merges-trans r (if slt 0 d then emit (reset_timer k) r else r) _
        (reset_timer-Merges (slt 0 d) k r) (reset_timers-Merges diff _)

  pub set_timestamp-Merges :
      (c : Timestamp) (r : Run) → Merges r (set_node (record r.state.node { timestamp = c }) r)
  set_timestamp-Merges c r = record {
    progress = set_node-SameProgress (record r.state.node { timestamp = c }) r refl refl;
    store = refl;
    events = [];
    out = sym (append-nil r.out);
    quiet = λ k. refl;
    acknowledges = λ k. refl;
  }

  pub merge_timestamp-Merges : (m : Message) (r : Run) → Merges r (merge_timestamp m r).1
  unfolding merge_timestamp
  merge_timestamp-Merges m r =
      let mine = (update r.state.node.timestamp m.timestamp).0 in
      Merges-trans r (set_node (record r.state.node { timestamp = mine }) r) _
        (set_timestamp-Merges mine r)
        (reset_timers-Merges mine.diff (set_node (record r.state.node { timestamp = mine }) r))

  merge_state_returns :
      (m : Message) (n : ℕ) (r : Run)
      → last_of m.sender_id r.state.external_nodes ≡ some n
      → (m.sender_id == z) ≡ false
      → (s : Run) × (merge_state m r ≡ ok s)
        × (s.state.message_store ≡ r.state.message_store)
        × (s.out ≡ r.out)
        × ((k : ℕ) → ack_of z k s.state.external_nodes ≡ ack_of z k r.state.external_nodes)
  unfolding merge_state update_failed_nodes
  merge_state_returns m n r h apart =
      let (e, o, k) = last-external m.sender_id n r h in
      (
        set_node (update_failed_nodes m.failed_nodes r.state.node) (
            set_externals
              (insert m.sender_id (update_delivery_ack_list m.acknowledgements e)
                r.state.external_nodes)
              r),
        rw o refl,
        refl,
        refl,
        λ k.
            rw
              (
                lookup-insert m.sender_id z (update_delivery_ack_list m.acknowledgements e)
                    r.state.external_nodes,
                apart,
              )
              refl,
      )

  pub merge_state-Merges :
      (m : Message) (n : ℕ) (r : Run)
      → last_of m.sender_id r.state.external_nodes ≡ some n
      → (m.sender_id == z) ≡ false
      → (s : Run) × (merge_state m r ≡ ok s) × Merges r s
  merge_state-Merges m n r h apart =
      let (s, e, k, o, a) = merge_state_returns m n r h apart in
      (
        s,
        e,
        record {
          progress = merge_state-Keeps m r s e;
          store = k;
          events = [];
          out = o ∙ sym (append-nil r.out);
          quiet = λ j. refl;
          acknowledges = a;
        },
      )

  -- The process of m that is received: the numbers and the store are those of before.
  pub Merges-IsNext :
      (r s : Run) (m k : Message) (before : ℕ)
      → k.sender_id ≡ m.sender_id
      → k.sequence_number ≡ m.sequence_number
      → Merges r s
      → IsNext r m before
      → IsNext s k before
  Merges-IsNext r s m k before d n a i = record {
    other = rw (a.progress.id, d) i.other;
    last = rw d (a.progress.last m.sender_id ∙ i.last);
    follows = n ∙ i.follows;
    above = rw n i.above;
  }

  pub Merges-IsCaughtUp : (r s : Run) → Merges r s → IsCaughtUp r → IsCaughtUp s
  Merges-IsCaughtUp r s a c =
      rw (a.store, a.progress.id)
        (IsHeld-last r.state.node.id r.state.external_nodes s.state.external_nodes
          r.state.message_store a.progress.last c)
