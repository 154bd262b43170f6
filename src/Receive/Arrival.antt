-- ===== src/Receive/Arrival.antt =====
-- What a process multicasts is delivered where it arrives next.
use ece.Prelude.{All, ℕ, ◌≡◌, refl, ◌∙◌, false, some, List, [], ◌∷◌, ◌++◌, ◌==◌, ok, if◌then◌else◌}
use ece.Timestamp.{step}
use ece.Message.{Message, message}
use ece.Message.Codec.{encode}
use ece.Message.RoundTrip.{IsEncodable, arrived, decode-encode}
use ece.State.Store.{IsFresh}
use ece.Mcast.{Event, deliver, Run, set_node, c_string}
use ece.Mcast.Clean.{ack_of, IsLagging, IsLagging-acks}
use ece.Mcast.Progress.{last_of, deliveries}
use ece.Mcast.Next.{IsNext, IsCaughtUp}
use ece.Receive.{merge_timestamp, dispatch, receive_body}
use ece.Receive.Next.{receive_message-Receives}
use ece.Receive.Merges.{
  Merges, Merges-trans, set_timestamp-Merges, merge_timestamp-Merges, merge_state-Merges,
  Merges-IsNext, Merges-IsCaughtUp,
}

module _ (z : ℕ) where
  -- The run in which an encoded message is dispatched.
  pub record Dispatched (my_id p source : ℕ) (bytes : List ℕ) (m : Message) (r : Run) : Type 0 where
    pub at : Run
    pub got : Message
    pub returns : receive_body my_id p source bytes r ≡ dispatch got.type p got at
    pub type : got.type ≡ m.type
    pub sender : got.sender_id ≡ m.sender_id
    pub number : got.sequence_number ≡ m.sequence_number
    pub text : got.text ≡ m.text
    pub merges : Merges z r at

  pub receive_body-Dispatched :
      (my_id p source before : ℕ) (m : Message) (rest : List ℕ) (r : Run)
      → (source == my_id) ≡ false
      → IsEncodable m
      → last_of m.sender_id r.state.external_nodes ≡ some before
      → (m.sender_id == z) ≡ false
      → Dispatched my_id p source (encode m ++ rest) m r
  unfolding receive_body merge_timestamp arrived
  receive_body-Dispatched my_id p source before m rest r s f h apart =
      let r₀ = set_node (record r.state.node { timestamp = step r.state.node.timestamp }) r in
      let a₀ = set_timestamp-Merges z (step r.state.node.timestamp) r in
      let a₁ = merge_timestamp-Merges z (arrived m) r₀ in
      let k = (merge_timestamp (arrived m) r₀).0 in
      let r₁ = (merge_timestamp (arrived m) r₀).1 in
      let a = Merges-trans z r r₀ r₁ a₀ a₁ in
      let (t, e, b) = merge_state-Merges z k before r₁ (a.progress.last m.sender_id ∙ h) apart in
      record {
        at = t;
        got = k;
        returns = rw (s, decode-encode m rest f, e) refl;
        type = refl;
        sender = refl;
        number = refl;
        text = refl;
        merges = Merges-trans z r r₁ t a b;
      }

  -- What the bytes of the message that is next come to.
  pub record Arrives (p : ℕ) (r : Run) (m : Message) (t : Run) : Type 0 where
    pub id : t.state.node.id ≡ r.state.node.id
    pub events : List Event
    pub out : t.out ≡ r.out ++ events ++ deliver m.sender_id (c_string m.text) ∷ []
    pub quiet : (k : ℕ) → deliveries k events ≡ 0
    pub last :
        (k : ℕ)
        → last_of k t.state.external_nodes
          ≡ (if m.sender_id == k then some m.sequence_number else last_of k r.state.external_nodes)
    pub fresh :
        (q : ℕ)
        → (p == q) ≡ false
        → IsFresh q r.state.message_store
        → IsFresh q t.state.message_store
    pub caught_up : IsCaughtUp t
    pub acknowledges :
        (k : ℕ) → ack_of z k t.state.external_nodes ≡ ack_of z k r.state.external_nodes
    pub lagging : All (IsLagging z t.state.external_nodes) t.state.message_store

  -- A process that has delivered, of the others' messages, all that it stores, and receives the bytes
  -- of the next message of another process, whatever stands behind them in the buffer, delivers the
  -- text of that message and nothing else, and has delivered all that it stores again. (The message
  -- fits the format, its number does not wrap, it is stored at a new address, and some third process
  -- is not known to have delivered it or any message that is stored.)
  pub receive_body-Arrives :
      (my_id p source before : ℕ) (m : Message) (rest : List ℕ) (r : Run)
      → (source == my_id) ≡ false
      → IsEncodable m
      → m.type ≡ message
      → IsNext r m before
      → IsFresh p r.state.message_store
      → IsCaughtUp r
      → (m.sender_id == z) ≡ false
      → IsLagging z r.state.external_nodes (p, m)
      → All (IsLagging z r.state.external_nodes) r.state.message_store
      → (t : Run) × (receive_body my_id p source (encode m ++ rest) r ≡ ok t) × Arrives p r m t
  unfolding dispatch
  receive_body-Arrives my_id p source before m rest r s f is_message i fresh c apart lags all_lag =
      let d = receive_body-Dispatched my_id p source before m rest r s f i.last apart in
      let (t, e, x) =
        receive_message-Receives z p d.got before d.at
          (Merges-IsNext z r d.at m d.got before d.sender d.number d.merges i)
          (rw d.merges.store fresh) (Merges-IsCaughtUp z r d.at d.merges c) (rw d.sender apart)
          (lags.0, rw d.sender (d.merges.acknowledges m.sender_id ∙ lags.1), rw d.number lags.2)
          (rw d.merges.store (
            IsLagging-acks z r.state.external_nodes d.at.state.external_nodes r.state.message_store
              d.merges.acknowledges all_lag)) in
      (
        t,
        d.returns ∙ rw (d.type, is_message) e,
        record {
          id = x.id ∙ d.merges.progress.id;
          events = d.merges.events;
          out = x.out ∙ rw (d.merges.out, d.sender, d.text) refl;
          quiet = d.merges.quiet;
          last = λ k. x.last k ∙ rw (d.sender, d.number, d.merges.progress.last k) refl;
          fresh = λ q apart g. x.fresh q apart (rw d.merges.store g);
          caught_up = x.caught_up;
          acknowledges = λ k. x.acknowledges k ∙ d.merges.acknowledges k;
          lagging = x.lagging;
        },
      )
