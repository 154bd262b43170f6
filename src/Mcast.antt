-- ===== src/Mcast.antt =====
-- MP1/mcast.cc: reliable multicast. The functions act on the global state and on a list of what
-- they made happen outside, oldest first. An object that `new` makes stands at an address that the
-- allocator chooses: where the message store keeps it, the address is an argument.
pub mod Left
pub mod Next
pub mod Causal
pub mod Clean
pub mod Deliver
pub mod Fifo
pub mod Fits
pub mod Pending
pub mod Progress
pub mod Retransmit
pub mod Safe
pub mod Send
use ece.Prelude.{
  ℕ, zero, suc, ◌+◌, ◌-◌, Bool, true, false, ◌&&◌, ◌||◌, not, Option, none, some, List, [], ◌∷◌,
  ◌++◌, length, ltb, leb, ◌==◌, if◌then◌else◌, Result, ok, fault, ◌>>=◌, null_dereference,
  erased_iterator, over_write,
}
use ece.Int32.{key, slt, sle, inc}
use ece.Map.{Map, IntSet, lookup, insert, keys, member, add}
use ece.Timestamp.{Timestamp, step, update}
use ece.Message.{Message, MessageType, heartbeat, retransrequest, message, make}
use ece.Message.Codec.{check, decode, encode}
use ece.Decimal.{print_int, parse_int}
use ece.State.{
  Node, ExternalNode, GlobalState, MessageStore, make_state, update_failed_nodes,
  sequence_number_increment, last_sequence_number_increment, acknowledged, after_read,
  update_delivery_ack_list, get_message, store_message,
}

pub data Event : Type 0 where
  -- `deliver(source, message)`
  deliver : ℕ → List ℕ → Event
  -- `usend(to, bytes, len)`
  usend : ℕ → List ℕ → Event
  -- `heartbeat->reset(id)`
  reset_timer : ℕ → Event
  -- `new Heartbeat(id, members, …, timeout, sendInterval, …)` and `heartbeat->arm()`
  start_heartbeat : ℕ → List ℕ → ℕ → ℕ → Event

pub record Run : Type 0 where
  pub state : GlobalState
  pub out : List Event

unfoldable pub emit : Event → Run → Run
emit e r = record r { out = r.out ++ e ∷ [] }

abbrev pub set_node : Node → Run → Run
set_node n r = record r { state = record r.state { node = n } }

abbrev pub set_externals : Map ExternalNode → Run → Run
set_externals es r = record r { state = record r.state { external_nodes = es } }

abbrev pub set_store : MessageStore → Run → Run
set_store s r = record r { state = record r.state { message_store = s } }

-- `externalNodes[id]->…`: a missing id is a null pointer.
unfoldable pub external : ℕ → Run → Result ExternalNode
external id r = elim (lookup id r.state.external_nodes) [
  | none ↦ fault null_dereference
  | some e ↦ ok e
]

-- The characters up to the first NUL.
unfoldable pub c_string : List ℕ → List ℕ
c_string [] = []
c_string (c ∷ s) = if c == 0 then [] else c ∷ c_string s

-- `heartbeat_failure`
unfoldable pub heartbeat_failure : ℕ → Run → Run
heartbeat_failure failed_id r =
    set_node (record r.state.node { failed_nodes = add failed_id r.state.node.failed_nodes }) r

-- `encodeBuffer` has 1000 bytes, and nothing checks that the message fits.
unfoldable pub unicast : ℕ → Message → Run → Result Run
unicast to m r =
    if member to r.state.node.failed_nodes
    then ok r
    else if leb (length (encode m)) 1000
    then ok (emit (usend to (encode m)) r)
    else fault over_write

unfoldable pub unicast_all : List ℕ → Message → Run → Result Run
unicast_all [] m r = ok r
unicast_all (to ∷ ids) m r = unicast to m r >>= unicast_all ids m

-- The loop over the external nodes.
unfoldable pub last_numbers : Map ExternalNode → Map ℕ → Map ℕ
last_numbers [] acks = acks
last_numbers ((k, e) ∷ es) acks = last_numbers es (insert k e.last_sequence_number acks)

unfoldable pub populate_acknowledgements : GlobalState → Map ℕ → Map ℕ
unfolding last_numbers
populate_acknowledgements g acks =
    insert g.node.id g.node.sequence_number (last_numbers g.external_nodes acks)

unfoldable pub heartbeat_send : Run → Result Run
heartbeat_send r =
    let node = r.state.node in
    unicast_all (keys r.state.external_nodes)
      (make node.id node.sequence_number node.timestamp heartbeat []
        (populate_acknowledgements r.state []) node.failed_nodes)
      r

-- What `multicast_deliver` does to the sender's entry.
unfoldable pub count_delivery : ℕ → Run → Result Run
count_delivery sender_id r = if sender_id == r.state.node.id then ok r else do
  e ← external sender_id r
  ok (set_externals (insert sender_id (last_sequence_number_increment e) r.state.external_nodes) r)

unfoldable pub multicast_deliver : Message → Run → Result Run
multicast_deliver m r = do
  r ← count_delivery m.sender_id r
  ok (emit (deliver m.sender_id (c_string m.text)) r)

-- `multicast` behind `initIfNecessary`; the new message stands at the address p.
unfoldable pub multicast_body : ℕ → List ℕ → Run → Result Run
multicast_body p text r = do
  let node =
      sequence_number_increment (record r.state.node { timestamp = step r.state.node.timestamp })
  let r = set_node node r
  let m =
      make node.id node.sequence_number node.timestamp message (c_string text)
        (populate_acknowledgements r.state []) node.failed_nodes
  r ← multicast_deliver m r
  let r = record r { state = store_message p m r.state }
  unicast_all (keys r.state.external_nodes) m r

-- The nodes known to have delivered the message numbered n of a sender, and the external nodes
-- after their lists were read.
unfoldable pub delivered_nodes : ℕ → ℕ → Map ExternalNode → IntSet → IntSet × Map ExternalNode
delivered_nodes sender_id n [] found = (found, [])
delivered_nodes sender_id n ((k, e) ∷ es) found =
    let (found', es') =
      delivered_nodes sender_id n es
        (if sle n (acknowledged sender_id e) then add k found else found) in
    (found', (k, after_read sender_id e) ∷ es')

unfoldable pub is_empty : IntSet → Bool
is_empty [] = true
is_empty (k ∷ s) = false

-- The rounds of the loop from i on.
unfoldable pub request_loop : ℕ → ℕ → ℕ → ℕ → Run → Result Run
request_loop zero sender_id n i r = ok r
request_loop (suc rounds) sender_id n i r = do
  let (found, es) = delivered_nodes sender_id n r.state.external_nodes []
  let r = set_externals es r
  _ ← check (not (is_empty found))
  let node = r.state.node
  let rm =
      make node.id i node.timestamp retransrequest (print_int sender_id)
        (populate_acknowledgements r.state []) node.failed_nodes
  r ← unicast_all found rm r
  request_loop rounds sender_id n (inc i) r

-- `for (int i = lastSequenceNumber + 1; i < m->getSequenceNumber(); i++)`
unfoldable pub retransmission_requests : Message → ℕ → Run → Result Run
retransmission_requests m last r =
    request_loop (key m.sequence_number - key (inc last)) m.sender_id m.sequence_number (inc last) r

-- The loop over the group: have all acknowledged the message? It stops at the first that has not.
unfoldable pub acknowledged_by_all : ℕ → ℕ → Map ExternalNode → Bool × Map ExternalNode
acknowledged_by_all sender_id n [] = (true, [])
acknowledged_by_all sender_id n ((k, e) ∷ es) =
    let (answer, es') = acknowledged_by_all sender_id n es in
    if slt (acknowledged sender_id e) n
    then (false, (k, after_read sender_id e) ∷ es)
    else (answer, (k, after_read sender_id e) ∷ es')

-- Has this process delivered the message?
unfoldable pub delivered_here : Message → Run → Result Bool
delivered_here m r =
    if m.sender_id == r.state.node.id
    then ok true
    else do e ← external m.sender_id r; ok (sle m.sequence_number e.last_sequence_number)

-- The loop over the store. Where `store.erase(m)` erases the element that the iterator stands on,
-- the `++it` that follows is undefined.
unfoldable pub clean_loop : MessageStore → Run → Result Run
clean_loop [] r = ok r
clean_loop ((p, m) ∷ s) r = do
  here ← delivered_here m r
  let (all, es) = acknowledged_by_all m.sender_id m.sequence_number r.state.external_nodes
  if here && all then fault erased_iterator else clean_loop s (set_externals es r)

unfoldable pub clean_message_store : Run → Result Run
clean_message_store r = clean_loop r.state.message_store r

-- The messages of the store that are not delivered yet, in the order of the store.
unfoldable pub undelivered : MessageStore → Run → Result MessageStore
undelivered [] r = ok []
undelivered ((p, m) ∷ s) r = if m.sender_id == r.state.node.id then undelivered s r else do
  e ← external m.sender_id r
  rest ← undelivered s r
  ok (if slt e.last_sequence_number m.sequence_number then (p, m) ∷ rest else rest)

-- `sort(undelivered.begin(), undelivered.end())` on a `vector<Message*>`: the elements are pointers,
-- and `<` on pointers compares their addresses.
unfoldable pub insert_sorted : ℕ → Message → MessageStore → MessageStore
insert_sorted p m [] = (p, m) ∷ []
insert_sorted p m ((q, n) ∷ s) =
    if ltb q p then (q, n) ∷ insert_sorted p m s else (p, m) ∷ (q, n) ∷ s

unfoldable pub sort_pointers : MessageStore → MessageStore
sort_pointers [] = []
sort_pointers ((p, m) ∷ s) = insert_sorted p m (sort_pointers s)

unfoldable pub deliver_loop : MessageStore → Run → Result Run
deliver_loop [] r = ok r
deliver_loop ((p, m) ∷ s) r = do
  e ← external m.sender_id r
  r ← (if m.sequence_number == inc e.last_sequence_number then multicast_deliver m r else ok r)
  deliver_loop s r

unfoldable pub process_undelivered : Run → Result Run
process_undelivered r = do
  pending ← undelivered r.state.message_store r
  deliver_loop (sort_pointers pending) r
