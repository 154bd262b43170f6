-- ===== src/Tests/Data.antt =====
-- Messages, timestamps and the store.
use ece.Prelude.{arith, refl, ◌≡◌, some, [], ◌∷◌, ◌++◌, ok}
use ece.Int32.{slt, sub}
use ece.Map.{lookup}
use ece.Timestamp.{compare, update}
use ece.Timestamp.Compare.{some_less, some_greater, relation, compare-relation}
use ece.Timestamp.Update.{update-difference}
use ece.Message.Codec.{decode, encode}
use ece.Message.RoundTrip.{IsEncodable, arrived, decode-encode}
use ece.Tests.{from_two, from_three}

pub from_two-IsEncodable : IsEncodable from_two
unfolding slt
from_two-IsEncodable = record {
  sender = omega arith;
  sequence = omega arith;
  text_size = omega arith;
  no_text = tt;
  acknowledgements = record {
    sorted = (omega arith, (refl, tt), (omega arith, tt, tt));
    ints = (omega arith, (omega arith, tt));
    size = omega arith;
  };
  timestamp = record {
    sorted = (omega arith, (refl, (refl, tt)), (omega arith, (refl, tt), (omega arith, tt, tt)));
    ints = (omega arith, (omega arith, (omega arith, tt)));
    size = omega arith;
  };
  failed_nodes = tt;
  failed_size = omega arith;
}

decode-encode_example : decode (encode from_two ++ (7 ∷ [])) ≡ ok (arrived from_two)
decode-encode_example = decode-encode from_two (7 ∷ []) from_two-IsEncodable

compare-relation_example :
    (compare from_two.timestamp from_three.timestamp).0
    ≡ relation
        (some_less from_two.timestamp.timestamp from_three.timestamp.timestamp)
        (some_greater from_two.timestamp.timestamp from_three.timestamp.timestamp)
compare-relation_example = compare-relation from_two.timestamp from_three.timestamp

update-difference_example :
    lookup 2 (update from_three.timestamp from_two.timestamp).0.diff ≡ some 2
unfolding lookup sub slt
update-difference_example =
    update-difference from_three.timestamp from_two.timestamp 2
      (omega arith, (refl, (refl, tt)), (omega arith, (refl, tt), (omega arith, tt, tt)))
