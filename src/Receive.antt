-- ===== src/Receive.antt =====
-- MP1/mcast.cc: `receive`, and the entry points with `initIfNecessary`.
pub mod Counted
pub mod Assertions
pub mod Duplicates
pub mod Arrival
pub mod Journey
pub mod Held
pub mod Merges
pub mod Next
pub mod Reach
pub mod Requests
pub mod Stream
use ece.Prelude.{
  ℕ, Bool, true, false, ◌||◌, not, Option, none, some, List, [], ◌∷◌, ◌++◌, ◌==◌, if◌then◌else◌,
  Result, ok, fault, null_dereference, ◌>>=◌,
}
use ece.Int32.{slt, sle}
use ece.Map.{Map, insert}
use ece.Timestamp.{Timestamp, step, update}
use ece.Message.{Message, MessageType, heartbeat, retransrequest, message}
use ece.Message.Codec.{check, decode}
use ece.Decimal.{parse_int}
use ece.State.{
  Node, ExternalNode, GlobalState, make_state, update_failed_nodes, update_delivery_ack_list,
  get_message, store_message,
}
use ece.Mcast.{
  Event, reset_timer, start_heartbeat, Run, emit, set_node, set_externals, external, unicast,
  multicast_body, retransmission_requests, clean_message_store, process_undelivered, heartbeat_send,
  heartbeat_failure,
}

-- The timers of the processes whose counter grew are reset.
unfoldable pub reset_timers : Map ℕ → Run → Run
reset_timers [] r = r
reset_timers ((k, d) ∷ diff) r = reset_timers diff (if slt 0 d then emit (reset_timer k) r else r)

-- The merge of the timestamps and the resets: the message comes back too, since the merge inserts
-- keys into its timestamp.
unfoldable pub merge_timestamp : Message → Run → Message × Run
merge_timestamp m r =
    let (mine, theirs) = update r.state.node.timestamp m.timestamp in
    (
      record m { timestamp = theirs },
      reset_timers mine.diff (set_node (record r.state.node { timestamp = mine }) r),
    )

-- The merge of the acknowledgements and of the failed nodes.
unfoldable pub merge_state : Message → Run → Result Run
merge_state m r = do
  origin ← external m.sender_id r
  let origin = update_delivery_ack_list m.acknowledgements origin
  let r = set_externals (insert m.sender_id origin r.state.external_nodes) r
  ok (set_node (update_failed_nodes m.failed_nodes r.state.node) r)

-- The answer to a retransmission request: the stored message, if there is one.
unfoldable pub answer : ℕ → Option Message → Run → Result Run
answer to none r = ok r
answer to (some found) r = unicast to found r

unfoldable pub receive_request : Message → Run → Result Run
receive_request m r =
    answer m.sender_id (get_message (parse_int m.text) m.sequence_number r.state) r

abbrev pub is_stored : Option Message → Bool
is_stored none = false
is_stored (some found) = true

-- Has the message been received already?
unfoldable pub is_duplicate : Message → ExternalNode → Run → Bool
is_duplicate m origin r =
    sle m.sequence_number origin.last_sequence_number
    || is_stored (get_message m.sender_id m.sequence_number r.state)

unfoldable pub receive_message : ℕ → Message → Run → Result Run
receive_message p m r = do
  origin ← external m.sender_id r
  if is_duplicate m origin r then ok r else do
    let r = record r { state = store_message p m r.state }
    r ← retransmission_requests m origin.last_sequence_number r
    r ← process_undelivered r
    clean_message_store r

unfoldable pub receive_heartbeat : Message → Run → Result Run
receive_heartbeat m r = do
  origin ← external m.sender_id r
  retransmission_requests m origin.last_sequence_number r

unfoldable pub dispatch : MessageType → ℕ → Message → Run → Result Run
dispatch retransrequest p m r = receive_request m r
dispatch message p m r = receive_message p m r
dispatch heartbeat p m r = receive_heartbeat m r

-- `receive` behind `initIfNecessary`, where `my_id` is the global variable; the decoded message
-- stands at the address p.
unfoldable pub receive_body : ℕ → ℕ → ℕ → List ℕ → Run → Result Run
receive_body my_id p source bytes r = do
  _ ← check (not (source == my_id))
  let r = set_node (record r.state.node { timestamp = step r.state.node.timestamp }) r
  m ← decode bytes
  let (m, r) = merge_timestamp m r
  r ← merge_state m r
  dispatch m.type p m r

-- The globals `my_id`, `mcast_members` and `globalState`, which is NULL at first.
pub record Process : Type 0 where
  pub my_id : ℕ
  pub members : List ℕ
  pub global_state : Option GlobalState
  pub out : List Event

unfoldable pub first_run : Option GlobalState → Process → Run
first_run none p = record {
  state = make_state p.my_id p.members;
  out = p.out ++ start_heartbeat p.my_id p.members 9000 3000 ∷ [];
}
first_run (some g) p = record { state = g; out = p.out }

unfoldable pub init_if_necessary : Process → Run
init_if_necessary p = first_run p.global_state p

abbrev pub after_run : Process → Result Run → Result Process
after_run p r = r >>= λ r. ok (record p { global_state = some r.state; out = r.out })

unfoldable pub multicast : ℕ → List ℕ → Process → Result Process
multicast address text p = after_run p (multicast_body address text (init_if_necessary p))

unfoldable pub receive : ℕ → ℕ → List ℕ → Process → Result Process
receive address source bytes p =
    after_run p (receive_body p.my_id address source bytes (init_if_necessary p))

-- What runs on `globalState` without a test for NULL.
unfoldable pub on_state : Option GlobalState → (Run → Result Run) → Process → Result Process
on_state none f p = fault null_dereference
on_state (some g) f p = after_run p (f (record { state = g; out = p.out }))

-- A round of the heartbeat's thread, and the signal of a timer.
unfoldable pub beat : Process → Result Process
beat p = on_state p.global_state heartbeat_send p

unfoldable pub time_out : ℕ → Process → Result Process
time_out failed_id p = on_state p.global_state (λ r. ok (heartbeat_failure failed_id r)) p
