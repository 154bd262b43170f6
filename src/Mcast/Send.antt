-- ===== src/Mcast/Send.antt =====
-- What `unicast` and the loops over it send, and what a multicast does.
use ece.Prelude.{
  ℕ, ◌≤◌, ◌≡◌, refl, sym, ap, ◌∙◌, not, List, [], ◌∷◌, ◌++◌, append-nil, append_assoc, length,
  filter, le→leb, ==_self, arith, ok, Bool-cases, inl, inr,
}
use ece.Map.{IntSet, keys, member}
use ece.Timestamp.{step}
use ece.Message.{Message, message, heartbeat, make}
use ece.Message.Codec.{encode}
use ece.State.{GlobalState, sequence_number_increment, store_message}
use ece.Mcast.{
  Event, deliver, usend, Run, emit, unicast, unicast_all, c_string, populate_acknowledgements,
  heartbeat_send, count_delivery, multicast_deliver, multicast_body, set_node,
}

-- The ids that are not believed to have failed.
abbrev pub live : IntSet → List ℕ → List ℕ
live failed ids = filter (λ to. not (member to failed)) ids

abbrev pub packets : Message → List ℕ → List Event
packets m [] = []
packets m (to ∷ ids) = usend to (encode m) ∷ packets m ids

-- What was emitted joins the end of the events.
abbrev pub emit_all : List Event → Run → Run
emit_all es r = record r { out = r.out ++ es }

pub unicast_all-fits :
    (ids : List ℕ) (m : Message) (r : Run)
    → length (encode m) ≤ 1000
    → unicast_all ids m r ≡ ok (emit_all (packets m (live r.state.node.failed_nodes ids)) r)
unfolding unicast_all unicast emit
unicast_all-fits [] m r h = ap (λ es. ok (record r { out = es })) (sym (append-nil r.out))
unicast_all-fits (to ∷ ids) m r h = elim (Bool-cases (member to r.state.node.failed_nodes)) [
  | inl e ↦ rw e (unicast_all-fits ids m r h)
  | inr e ↦
      rw (e, le→leb (length (encode m)) 1000 h)
        (unicast_all-fits ids m (emit (usend to (encode m)) r) h
          ∙ ap (λ es. ok (record r { out = es })) (append_assoc r.out (usend to (encode m) ∷ []) _))
]

-- The message that `heartbeat_send` builds.
abbrev pub heartbeat_of : GlobalState → Message
heartbeat_of g =
    make g.node.id g.node.sequence_number g.node.timestamp heartbeat []
      (populate_acknowledgements g []) g.node.failed_nodes

-- A heartbeat that fits the buffer of 1000 bytes goes to exactly the external nodes that are not
-- believed to have failed, in the order of their ids, and the state stays.
pub heartbeat_send-packets :
    (r : Run)
    → length (encode (heartbeat_of r.state)) ≤ 1000
    → heartbeat_send r
      ≡ ok (
          emit_all
            (packets
              (heartbeat_of r.state)
              (live r.state.node.failed_nodes (keys r.state.external_nodes)))
            r)
unfolding heartbeat_send
heartbeat_send-packets r h = unicast_all-fits _ _ r h

pub c_string-c_string : (s : List ℕ) → c_string (c_string s) ≡ c_string s
unfolding c_string
c_string-c_string [] = refl
c_string-c_string (c ∷ s) = ground (arith, c_string-c_string s)

pub multicast_deliver_self :
    (m : Message) (r : Run)
    → m.sender_id ≡ r.state.node.id
    → multicast_deliver m r ≡ ok (emit (deliver m.sender_id (c_string m.text)) r)
unfolding multicast_deliver count_delivery
multicast_deliver_self m r e = rw (e, ==_self r.state.node.id)

-- The state of a process that has begun to multicast: its clock and its sequence number are up.
abbrev pub ticked : Run → Run
ticked r =
    set_node
      (sequence_number_increment (record r.state.node { timestamp = step r.state.node.timestamp }))
      r

abbrev pub multicast_of : List ℕ → GlobalState → Message
multicast_of text g =
    make g.node.id g.node.sequence_number g.node.timestamp message (c_string text)
      (populate_acknowledgements g []) g.node.failed_nodes

-- A multicast whose message fits the buffer succeeds. It delivers the text to the process itself
-- first, then sends one message to exactly the external nodes that are not believed to have failed,
-- in the order of their ids. The message carries the clock and the sequence number after their
-- increments, and the state keeps both and the message.
pub multicast_body-packets :
    (p : ℕ) (text : List ℕ) (r : Run)
    → length (encode (multicast_of text (ticked r).state)) ≤ 1000
    → multicast_body p text r
      ≡ ok (record {
        state = store_message p (multicast_of text (ticked r).state) (ticked r).state;
        out =
            r.out
            ++ deliver r.state.node.id (c_string text)
              ∷ packets
                  (multicast_of text (ticked r).state)
                  (live r.state.node.failed_nodes (keys r.state.external_nodes));
      })
unfolding multicast_body emit make sequence_number_increment store_message
multicast_body-packets p text r h =
    let m = multicast_of text (ticked r).state in
    rw (
      multicast_deliver_self m (ticked r) refl,
      unicast_all-fits (keys r.state.external_nodes) m
          (record {
            state = store_message p m (ticked r).state;
            out = r.out ++ deliver r.state.node.id (c_string (c_string text)) ∷ [];
          })
          h,
      append_assoc r.out (deliver r.state.node.id (c_string (c_string text)) ∷ [])
          (packets m (live r.state.node.failed_nodes (keys r.state.external_nodes))),
      c_string-c_string text,
    )
