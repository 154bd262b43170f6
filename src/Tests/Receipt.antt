-- ===== src/Tests/Receipt.antt =====
-- Runs of a process, and what arrives.
use ece.Prelude.{refl, ◌≡◌, [], ◌∷◌, ok, IsSafe}
use ece.Int32.{sle, slt, inc, smax, sub}
use ece.Map.{lookup, touch, insert, member, add_all}
use ece.Timestamp.{step, of_members, of_map, update, update_loop, zeros}
use ece.Message.{Message, make}
use ece.Message.Codec.{
  munch_integer, munch_char, take_bytes, munch_text, munch_body, munch_type, rounds, munch_pairs,
  munch_ids, decode_fields, decode, integer_bytes, text_bytes, body_bytes, pair_bytes, id_bytes,
  encode,
}
use ece.State.{
  make_node, update_failed_nodes, sequence_number_increment, make_external,
  last_sequence_number_increment, after_read, merge_acks, update_delivery_ack_list, externals,
  make_state, find_message, get_message, insert_pointer, store_message,
}
use ece.Mcast.{
  Run, emit, external, c_string, unicast, unicast_all, last_numbers, populate_acknowledgements,
  count_delivery, multicast_deliver, multicast_body, request_loop, retransmission_requests,
  acknowledged_by_all, delivered_here, clean_loop, clean_message_store, undelivered, insert_sorted,
  sort_pointers, deliver_loop, process_undelivered,
}
use ece.Receive.{
  reset_timers, merge_timestamp, merge_state, is_duplicate, receive_message, dispatch, receive_body,
  Process, first_run, init_if_necessary, multicast, receive,
}
use ece.Receive.Reach.{
  ProcessIsCounted, idle, here, then_step, multicasts, receives, Reach-IsCounted,
}
use ece.Receive.Assertions.{dispatch-no_abort}
use ece.Tests.{hi, from_two, external_of, waiting, fresh, or_else}

abbrev delivered_one : Run
delivered_one = record waiting {
  state = record waiting.state {
    external_nodes = (2, record (external_of 2) { last_sequence_number = 1 }) ∷ [];
  };
}

abbrev empty_store : Run
empty_store = record waiting { state = record waiting.state { message_store = [] } }

-- The second message of process 2, which arrives while the first is missing.
abbrev second : Message
second = record from_two { sequence_number = 2; acknowledgements = (1, 0) ∷ (2, 2) ∷ [] }

abbrev merged : Run
merged = or_else empty_store (merge_state second empty_store)

dispatch-no_abort_example : IsSafe (dispatch second.type 64 second merged)
unfolding merge_state external lookup sle update_delivery_ack_list merge_acks insert slt
    update_failed_nodes
dispatch-no_abort_example = dispatch-no_abort 64 second 2 empty_store merged (refl, refl) refl

abbrev after_multicast : Process
after_multicast = or_else fresh (multicast 16 hi fresh)

abbrev after_receipt : Process
after_receipt = or_else fresh (receive 64 2 (encode from_two) after_multicast)

multicast_run : multicast 16 hi fresh ≡ ok after_multicast
unfolding multicast multicast_body multicast_deliver count_delivery make sequence_number_increment
    init_if_necessary first_run make_state make_node unicast_all store_message emit externals insert
    slt unicast member inc lookup c_string external last_numbers populate_acknowledgements
    body_bytes encode id_bytes integer_bytes pair_bytes text_bytes insert_pointer
    last_sequence_number_increment make_external of_members step zeros
multicast_run = refl

receive_run : receive 64 2 (encode from_two) after_multicast ≡ ok after_receipt
unfolding multicast receive multicast_body multicast_deliver count_delivery make
    sequence_number_increment init_if_necessary first_run make_state make_node unicast_all
    store_message emit externals insert slt unicast member inc lookup c_string external last_numbers
    populate_acknowledgements body_bytes encode id_bytes integer_bytes pair_bytes text_bytes
    insert_pointer last_sequence_number_increment make_external of_members step zeros receive_body
    decode decode_fields munch_integer munch_type munch_char munch_body munch_text take_bytes rounds
    munch_pairs munch_ids of_map merge_timestamp update update_loop sub touch reset_timers
    merge_state update_delivery_ack_list merge_acks smax update_failed_nodes add_all dispatch
    receive_message is_duplicate sle get_message find_message retransmission_requests request_loop
    process_undelivered undelivered sort_pointers insert_sorted deliver_loop clean_message_store
    clean_loop delivered_here acknowledged_by_all after_read
receive_run = refl

Reach-IsCounted_example : ProcessIsCounted after_receipt
Reach-IsCounted_example =
    Reach-IsCounted
      (then_step (then_step here (multicasts 16 hi multicast_run))
        (receives 64 2 (encode from_two) receive_run))
      (idle refl (λ k. refl))
