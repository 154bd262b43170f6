-- ===== src/Tests/Streams.antt =====
-- Two messages of process 2 that process 1 receives in order.
use ece.Prelude.{ℕ, ◌≡◌, refl, List, [], ◌∷◌, ◌++◌, arith, ok}
use ece.Int32.{slt, inc}
use ece.Map.{lookup}
use ece.Message.{Message}
use ece.Message.RoundTrip.{IsEncodable}
use ece.Mcast.{Run, c_string}
use ece.Mcast.Next.{IsCaughtUp}
use ece.Receive.Stream.{heard, receive_each, receive_each-texts}
use ece.Tests.{hi, from_two, waiting}
use ece.Tests.Data.{from_two-IsEncodable}

abbrev second_from_two : Message
second_from_two = record from_two { sequence_number = 2 }

second_from_two-IsEncodable : IsEncodable second_from_two
second_from_two-IsEncodable = record {
  sender = from_two-IsEncodable.sender;
  sequence = omega arith;
  text_size = from_two-IsEncodable.text_size;
  no_text = from_two-IsEncodable.no_text;
  acknowledgements = from_two-IsEncodable.acknowledgements;
  timestamp = from_two-IsEncodable.timestamp;
  failed_nodes = from_two-IsEncodable.failed_nodes;
  failed_size = from_two-IsEncodable.failed_size;
}

abbrev listening : Run
listening = record waiting { state = record waiting.state { message_store = [] } }

abbrev both : List (ℕ × Message)
both = (32, from_two) ∷ (16, second_from_two) ∷ []

receive_each-texts_example :
    (t : Run) × (receive_each 1 both listening ≡ ok t)
    × (heard t.out ≡ [] ++ (2, c_string hi) ∷ (2, c_string hi) ∷ [])
    × IsCaughtUp t
unfolding lookup slt inc
receive_each-texts_example =
    receive_each-texts 3 1 both listening refl
      (refl, (0, refl, refl, refl), (refl, (1, refl, refl, refl), tt))
      (refl, from_two-IsEncodable, (refl, second_from_two-IsEncodable, tt))
      (tt, (refl, tt), (tt, tt, tt)) tt (refl, (0, refl, refl), (refl, (0, refl, refl), tt)) tt
