-- ===== src/State.antt =====
-- MP1/state: what a process knows of itself, of the other processes, and the messages it keeps.
pub mod Acks
pub mod Store
use ece.Prelude.{
  ℕ, ◌≡◌, Bool, true, false, ◌&&◌, Option, none, some, List, [], ◌∷◌, ltb, ◌==◌, if◌then◌else◌,
}
use ece.Int32.{inc, smax}
use ece.Map.{Map, IntSet, insert, get_or, touch, add_all}
use ece.Timestamp.{Timestamp, of_members}
use ece.Message.{Message}

pub record Node : Type 0 where
  pub id : ℕ
  pub sequence_number : ℕ
  pub failed_nodes : IntSet
  pub timestamp : Timestamp

unfoldable pub make_node : ℕ → List ℕ → Node
make_node id members = record {
  id = id;
  sequence_number = 0;
  failed_nodes = [];
  timestamp = of_members id members;
}

-- `failedNodes.insert(other.begin(), other.end())`
unfoldable pub update_failed_nodes : IntSet → Node → Node
update_failed_nodes others n = record n { failed_nodes = add_all others n.failed_nodes }

unfoldable pub sequence_number_increment : Node → Node
sequence_number_increment n = record n { sequence_number = inc n.sequence_number }

pub record ExternalNode : Type 0 where
  pub id : ℕ
  pub last_sequence_number : ℕ
  pub delivery_ack_list : Map ℕ

unfoldable pub make_external : ℕ → ExternalNode
make_external id = record { id = id; last_sequence_number = 0; delivery_ack_list = [] }

unfoldable pub last_sequence_number_increment : ExternalNode → ExternalNode
last_sequence_number_increment e = record e { last_sequence_number = inc e.last_sequence_number }

-- `getExternalLastSequenceNumber` reads by `operator[]`: the value, and the node after the read.
abbrev pub acknowledged : ℕ → ExternalNode → ℕ
acknowledged id e = get_or id 0 e.delivery_ack_list

unfoldable pub after_read : ℕ → ExternalNode → ExternalNode
after_read id e = record e { delivery_ack_list = touch id 0 e.delivery_ack_list }

unfoldable pub merge_acks : Map ℕ → Map ℕ → Map ℕ
merge_acks [] acks = acks
merge_acks ((k, v) ∷ list) acks = merge_acks list (insert k (smax (get_or k 0 acks) v) acks)

unfoldable pub update_delivery_ack_list : Map ℕ → ExternalNode → ExternalNode
update_delivery_ack_list list e = record e {
  delivery_ack_list = merge_acks list e.delivery_ack_list;
}

-- `set<Message*>`: the messages with their addresses, which ascend.
abbrev pub MessageStore : Type 0
MessageStore = List (ℕ × Message)

pub record GlobalState : Type 0 where
  pub message_store : MessageStore
  pub node : Node
  pub external_nodes : Map ExternalNode

unfoldable pub externals : ℕ → List ℕ → Map ExternalNode → Map ExternalNode
externals own [] m = m
externals own (i ∷ ids) m = externals own ids (if i == own then m else insert i (make_external i) m)

unfoldable pub make_state : ℕ → List ℕ → GlobalState
make_state own members = record {
  message_store = [];
  node = make_node own members;
  external_nodes = externals own members [];
}

abbrev pub matches : ℕ → ℕ → Message → Bool
matches from_id sequence_number m = m.sender_id == from_id && m.sequence_number == sequence_number

-- The first message in the order of the addresses; `none` is NULL.
unfoldable pub find_message : ℕ → ℕ → MessageStore → Option Message
find_message from_id sequence_number [] = none
find_message from_id sequence_number ((p, m) ∷ s) =
    if matches from_id sequence_number m then some m else find_message from_id sequence_number s

unfoldable pub get_message : ℕ → ℕ → GlobalState → Option Message
get_message from_id sequence_number g = find_message from_id sequence_number g.message_store

-- Insertion of a pointer: one that is there already stays.
unfoldable pub insert_pointer : ℕ → Message → MessageStore → MessageStore
insert_pointer p m [] = (p, m) ∷ []
insert_pointer p m ((q, n) ∷ s) =
    if q == p
    then (q, n) ∷ s
    else if ltb p q
    then (p, m) ∷ (q, n) ∷ s
    else (q, n) ∷ insert_pointer p m s

unfoldable pub store_message : ℕ → Message → GlobalState → GlobalState
store_message p m g = record g { message_store = insert_pointer p m g.message_store }
