-- ===== src/Mcast/Fits.antt =====
-- When a multicast fits the 1000 bytes of encodeBuffer.
use ece.Prelude.{ℕ, ◌+◌, ◌*◌, ◌≤◌, ◌<◌, ◌≡◌, List, [], ◌∷◌, length, arith, ok}
use ece.Map.{Map, insert, get_or}
use ece.Int32.{inc}
use ece.Message.{make}
use ece.Message.Codec.{encode}
use ece.Message.Size.{length-encode}
use ece.State.{ExternalNode, sequence_number_increment}
use ece.Timestamp.{step}
use ece.Mcast.{c_string, Run, last_numbers, populate_acknowledgements, multicast_body}
use ece.Mcast.Send.{ticked, multicast_of, multicast_body-packets}

length-insert {ℓ} : {V : Type ℓ} (k : ℕ) (v : V) (m : Map V) → length (insert k v m) ≤ length m + 1
unfolding insert
length-insert k v [] = omega arith
length-insert k v ((j, w) ∷ m) = ground (arith, length-insert k v m)

length-last_numbers :
    (es : Map ExternalNode) (acks : Map ℕ) → length (last_numbers es acks) ≤ length es + length acks
unfolding last_numbers
length-last_numbers [] acks = omega arith
length-last_numbers ((k, e) ∷ es) acks = omega (
  arith,
  length-insert k e.last_sequence_number acks,
  length-last_numbers es (insert k e.last_sequence_number acks),
)

length-c_string : (text : List ℕ) → length (c_string text) ≤ length text
unfolding c_string
length-c_string [] = omega arith
length-c_string (c ∷ text) = ground (arith, length-c_string text)

length-multicast_of :
    (text : List ℕ) (r : Run)
    → length (encode (multicast_of text (ticked r).state))
      ≤ 54
        + length text
        + 8 * (length r.state.external_nodes + length r.state.node.timestamp.timestamp)
        + 4 * length r.state.node.failed_nodes
unfolding make populate_acknowledgements step sequence_number_increment
length-multicast_of text r =
    let node = (ticked r).state.node in
    let clock = r.state.node.timestamp in
    omega (
      arith,
      length-encode (multicast_of text (ticked r).state),
      length-c_string text,
      length-insert node.id node.sequence_number (last_numbers r.state.external_nodes []),
      length-last_numbers r.state.external_nodes [],
      length-insert clock.own_id (inc (get_or clock.own_id 0 clock.timestamp)) clock.timestamp,
    )

-- The message of a text of at most 255 bytes, which is what the chat client reads of a line, fits the
-- buffer in a group of at most 34 processes: `multicast` of it succeeds.
pub multicast_body-fits :
    (p : ℕ) (text : List ℕ) (r : Run)
    → length text ≤ 255
    → length r.state.external_nodes < 34
    → length r.state.node.timestamp.timestamp ≤ 34
    → length r.state.node.failed_nodes < 34
    → (t : Run) × (multicast_body p text r ≡ ok t)
multicast_body-fits p text r short externals counters failed =
    (_, multicast_body-packets p text r (omega (arith, length-multicast_of text r)))
