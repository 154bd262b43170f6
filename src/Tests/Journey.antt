-- ===== src/Tests/Journey.antt =====
-- A multicast of process 1 that process 2 receives.
use ece.Prelude.{ℕ, ◌≡◌, refl, List, [], ◌∷◌, ◌++◌, arith, ok}
use ece.Int32.{slt, inc}
use ece.Map.{lookup, insert, member}
use ece.Timestamp.{step}
use ece.Message.{make}
use ece.Message.Codec.{encode, integer_bytes, body_bytes, text_bytes, pair_bytes}
use ece.Message.Size.{length-encode}
use ece.Message.RoundTrip.{IsEncodable}
use ece.State.{sequence_number_increment}
use ece.Mcast.{
  Event, deliver, Run, c_string, last_numbers, populate_acknowledgements, multicast_body,
}
use ece.Mcast.Progress.{deliveries}
use ece.Mcast.Send.{ticked, multicast_of}
use ece.Mcast.Next.{IsNext, IsCaughtUp}
use ece.Receive.{receive_body}
use ece.Receive.Journey.{Sends, receive_body-multicast_body}
use ece.Tests.{clock, hi, external_of, waiting}

abbrev pub receiver : Run
receiver = record {
  state = record {
    message_store = [];
    node = record {
      id = 2;
      sequence_number = 0;
      failed_nodes = [];
      timestamp = clock 2 ((1, 0) ∷ (2, 1) ∷ (3, 0) ∷ []);
    };
    external_nodes = (1, external_of 1) ∷ (3, external_of 3) ∷ [];
  };
  out = [];
}

greeting-IsEncodable : IsEncodable (multicast_of hi (ticked waiting).state)
unfolding slt last_numbers populate_acknowledgements insert step sequence_number_increment make
    c_string inc lookup
greeting-IsEncodable = record {
  sender = omega arith;
  sequence = omega arith;
  text_size = omega arith;
  no_text = tt;
  acknowledgements = record {
    sorted = (omega arith, (refl, (refl, tt)), (omega arith, (refl, tt), (omega arith, tt, tt)));
    ints = (omega arith, (omega arith, (omega arith, tt)));
    size = omega arith;
  };
  timestamp = record {
    sorted = (omega arith, (refl, (refl, tt)), (omega arith, (refl, tt), (omega arith, tt, tt)));
    ints = (omega arith, (omega arith, (omega arith, tt)));
    size = omega arith;
  };
  failed_nodes = tt;
  failed_size = omega arith;
}

greeting-IsNext : IsNext receiver (multicast_of hi (ticked waiting).state) 0
unfolding slt inc lookup sequence_number_increment make
greeting-IsNext = record { other = refl; last = refl; follows = refl; above = refl }

receive_body-multicast_body_example :
    (sent : Run) × (bytes : List ℕ) × (t : Run) × (multicast_body 64 hi waiting ≡ ok sent)
    × Sends 2 bytes sent.out
    × (receive_body 2 48 1 (bytes ++ (0 ∷ [])) receiver ≡ ok t)
    × ((events : List Event) × (t.out ≡ receiver.out ++ events ++ deliver 1 (c_string hi) ∷ [])
        × ((k : ℕ) → deliveries k events ≡ 0))
    × IsCaughtUp t
unfolding lookup last_numbers populate_acknowledgements insert step sequence_number_increment make
    encode integer_bytes body_bytes text_bytes c_string pair_bytes slt member inc
receive_body-multicast_body_example =
    receive_body-multicast_body 64 hi waiting 2 (external_of 2) 2 48 0 3 (0 ∷ []) receiver refl refl
      (omega (arith, length-encode (multicast_of hi (ticked waiting).state))) greeting-IsEncodable
      refl greeting-IsNext tt tt refl (0, refl, refl) tt
