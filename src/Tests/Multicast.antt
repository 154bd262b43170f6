-- ===== src/Tests/Multicast.antt =====
-- Sends, deliveries and clean-ups.
use ece.Prelude.{
  true, false, inr, fault, erased_iterator, arith, ℕ, refl, ◌≡◌, some, filter, List, [], ◌∷◌, ◌++◌,
  length, ok,
}
use ece.Int32.{slt, inc}
use ece.Map.{lookup, insert}
use ece.Timestamp.{step}
use ece.Message.{Message, make}
use ece.Message.Codec.{encode, integer_bytes, body_bytes, text_bytes, pair_bytes}
use ece.Message.Size.{length-encode}
use ece.State.{sequence_number_increment, store_message}
use ece.Mcast.{
  deliver, Run, emit, external, undelivered, deliver_loop, process_undelivered, clean_message_store,
  c_string, multicast_body, insert_sorted, sort_pointers, count_delivery, multicast_deliver,
  populate_acknowledgements, last_numbers,
}
use ece.Mcast.Progress.{last_of}
use ece.Mcast.Fits.{multicast_body-fits}
use ece.Mcast.Send.{live, packets, multicast_of, ticked, multicast_body-packets}
use ece.Mcast.Deliver.{IsCounted}
use ece.Mcast.Fifo.{Picks, process_undelivered-fifo, numbers_from, in_sequence, delivery_events}
use ece.Mcast.Causal.{causal_order_ignored}
use ece.Mcast.Left.{process_undelivered-leaves}
use ece.Mcast.Clean.{some_done, Reads, clean_message_store-some_done}
use ece.Mcast.Pending.{is_pending}
use ece.Tests.{hi, from_two, from_three, external_of, waiting, or_else}

waiting-IsCounted : IsCounted waiting
unfolding lookup
waiting-IsCounted = record { unlisted = refl; own = refl; others = λ k. ground arith }

abbrev delivered : Run
delivered = or_else waiting (process_undelivered waiting)

process_undelivered-fifo_example :
    (ms : List Message) × (delivered.out ≡ waiting.out ++ delivery_events ms)
    × Picks ms (sort_pointers (filter (is_pending waiting) waiting.state.message_store))
    × ((k : ℕ)
        → numbers_from k ms
          ≡ in_sequence (last_of k waiting.state.external_nodes) (length (numbers_from k ms)))
    × IsCounted delivered
unfolding process_undelivered undelivered external lookup slt sort_pointers insert_sorted
    deliver_loop inc multicast_deliver count_delivery emit insert
process_undelivered-fifo_example = process_undelivered-fifo waiting delivered waiting-IsCounted refl

clean_message_store-some_done_example :
    (some_done 1 waiting.state.external_nodes waiting.state.message_store ≡ true
      → clean_message_store waiting ≡ fault erased_iterator)
    × (some_done 1 waiting.state.external_nodes waiting.state.message_store ≡ false
        → (t : Run) × (clean_message_store waiting ≡ ok t) × Reads waiting t)
unfolding lookup
clean_message_store-some_done_example =
    clean_message_store-some_done waiting (inr (0, refl), (inr (0, refl), tt))

multicast_body-packets_example :
    multicast_body 64 hi waiting
    ≡ ok (record {
      state = store_message 64 (multicast_of hi (ticked waiting).state) (ticked waiting).state;
      out =
          deliver 1 (c_string hi)
          ∷ packets (multicast_of hi (ticked waiting).state) (live [] (2 ∷ 3 ∷ []));
    })
unfolding last_numbers populate_acknowledgements insert step sequence_number_increment make encode
    integer_bytes body_bytes text_bytes c_string pair_bytes slt
multicast_body-packets_example =
    multicast_body-packets 64 hi waiting
      (omega (arith, length-encode (multicast_of hi (ticked waiting).state)))

causal_order_ignored_example :
    (t : Run) × (process_undelivered waiting ≡ ok t)
    × (t.out ≡ deliver 2 (c_string hi) ∷ deliver 3 (c_string hi) ∷ [])
unfolding external lookup slt inc
causal_order_ignored_example =
    causal_order_ignored 16 32 from_two from_three waiting (external_of 2) (external_of 3)
      (omega arith) refl refl refl refl refl refl refl refl refl refl

multicast_body-fits_example : (t : Run) × (multicast_body 64 hi waiting ≡ ok t)
multicast_body-fits_example =
    multicast_body-fits 64 hi waiting (omega arith) (omega arith) (omega arith) (omega arith)

-- The second message of process 2 arrived before the first.
abbrev out_of_order : Run
out_of_order = record waiting {
  state = record waiting.state {
    message_store = (16, record from_two { sequence_number = 2 }) ∷ (32, from_two) ∷ [];
  };
}

process_undelivered-leaves_example :
    (t : Run) × (process_undelivered out_of_order ≡ ok t)
    × (t.out ≡ [] ++ deliver 2 (c_string hi) ∷ [])
    × (t.state.message_store ≡ out_of_order.state.message_store)
    × (last_of 2 t.state.external_nodes ≡ some 1)
    × (2 ≡ inc 1)
unfolding external lookup slt inc
process_undelivered-leaves_example =
    process_undelivered-leaves 16 32 from_two (record from_two { sequence_number = 2 }) out_of_order
      (external_of 2) (omega arith) refl refl refl refl refl refl refl refl
