-- ===== src/Message.antt =====
-- MP1/message/message.h: the messages of the protocol, and their order.
pub mod Codec
pub mod RoundTrip
pub mod Size
use ece.Prelude.{ℕ, Bool, true, false, List, []}
use ece.Int32.{slt}
use ece.Map.{Map, IntSet}
use ece.Timestamp.{Timestamp, CausalityRelation, before, concurrent, after, compare}

pub data MessageType : Type 0 where
  heartbeat retransrequest message : MessageType

-- The text is a list of bytes. The timestamp is the message's own copy.
pub record Message : Type 0 where
  pub sender_id : ℕ
  pub sequence_number : ℕ
  pub needs_delete : Bool
  pub timestamp : Timestamp
  pub type : MessageType
  pub text : List ℕ
  pub acknowledgements : Map ℕ
  pub failed_nodes : IntSet

-- The constructor from the parts.
unfoldable pub make : ℕ → ℕ → Timestamp → MessageType → List ℕ → Map ℕ → IntSet → Message
make sender_id sequence_number timestamp type text acknowledgements failed_nodes = record {
  sender_id = sender_id;
  sequence_number = sequence_number;
  needs_delete = false;
  timestamp = timestamp;
  type = type;
  text = text;
  acknowledgements = acknowledgements;
  failed_nodes = failed_nodes;
}

-- `operator<`: by causality, and among concurrent messages by the sender. (The timestamp of `b`
-- takes in the keys that `compare` inserts, which no value shows.)
unfoldable pub precedes : Message → Message → Bool
precedes a b = elim (compare a.timestamp b.timestamp).0 [
  | before ↦ true
  | after ↦ false
  | concurrent ↦ slt a.sender_id b.sender_id
]
