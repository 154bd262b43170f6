-- ===== src/Tests.antt =====
-- The theorems at concrete inputs: a group of the processes 1, 2 and 3, seen from process 1.
pub mod Data
pub mod Multicast
pub mod Receipt
pub mod Election
pub mod Network
pub mod Journey
pub mod Refilled
pub mod Streams
pub mod Requests
pub mod Service
pub mod Copies
pub mod Reading
pub mod Front
pub mod Links
pub mod Alarms
pub mod Accounts
pub mod Terminal
use ece.Prelude.{ℕ, false, Option, none, some, List, [], ◌∷◌, Result, ok, fault}
use ece.Map.{Map}
use ece.Timestamp.{Timestamp}
use ece.Message.{Message, MessageType, message}
use ece.State.{GlobalState, ExternalNode}
use ece.Mcast.{Run}
use ece.Receive.{Process}

abbrev pub clock : ℕ → Map ℕ → Timestamp
clock id m = record { own_id = id; timestamp = m; diff = [] }

-- "Hi"
abbrev pub hi : List ℕ
hi = 72 ∷ 105 ∷ []

-- A message of a process, which acknowledges itself.
abbrev pub message_of : ℕ → ℕ → Map ℕ → Message
message_of id n m = record {
  sender_id = id;
  sequence_number = n;
  needs_delete = false;
  timestamp = clock id m;
  type = message;
  text = hi;
  acknowledgements = (1, 0) ∷ (id, n) ∷ [];
  failed_nodes = [];
}

abbrev pub from_two : Message
from_two = message_of 2 1 ((1, 0) ∷ (2, 2) ∷ (3, 1) ∷ [])

abbrev pub from_three : Message
from_three = message_of 3 1 ((1, 0) ∷ (2, 0) ∷ (3, 1) ∷ [])

abbrev pub external_of : ℕ → ExternalNode
external_of id = record { id = id; last_sequence_number = 0; delivery_ack_list = (id, 1) ∷ [] }

-- Both messages are stored and not delivered. The one of process 3 causally precedes the one of
-- process 2, which stands at the lower address.
abbrev pub waiting : Run
waiting = record {
  state = record {
    message_store = (16, from_two) ∷ (32, from_three) ∷ [];
    node = record {
      id = 1;
      sequence_number = 0;
      failed_nodes = [];
      timestamp = clock 1 ((1, 2) ∷ (2, 2) ∷ (3, 1) ∷ []);
    };
    external_nodes = (2, external_of 2) ∷ (3, external_of 3) ∷ [];
  };
  out = [];
}

-- A process before its first multicast or receipt.
abbrev pub fresh : Process
fresh = record { my_id = 1; members = 1 ∷ 2 ∷ 3 ∷ []; global_state = none; out = [] }

abbrev pub or_else : {A : Type 0} → A → Result A → A
or_else d (ok a) = a
or_else d (fault e) = d
