-- ===== src/Message/Size.antt =====
-- How many bytes `getEncodedMessage` writes.
use ece.Prelude.{ℕ, ◌+◌, ◌*◌, ◌≡◌, refl, List, [], ◌∷◌, ◌++◌, length, length-append, arith}
use ece.Map.{Map, IntSet}
use ece.Message.{Message, MessageType, heartbeat, retransrequest, message}
use ece.Message.Codec.{integer_bytes, text_bytes, body_bytes, pair_bytes, id_bytes, encode}

length-integer_append : (n : ℕ) (rest : List ℕ) → length (integer_bytes n ++ rest) ≡ 4 + length rest
unfolding integer_bytes
length-integer_append n rest = omega arith

length-integer_bytes : (n : ℕ) → length (integer_bytes n) ≡ 4
unfolding integer_bytes
length-integer_bytes n = refl

abbrev pub body_size : MessageType → List ℕ → ℕ
body_size heartbeat text = 1
body_size retransrequest text = 6 + length text
body_size message text = 6 + length text

length-text_bytes : (text : List ℕ) → length (text_bytes text) ≡ 5 + length text
unfolding text_bytes
length-text_bytes text = rw length-integer_append (omega (arith, length-append text (0 ∷ [])))

length-body_bytes :
    (type : MessageType) (text : List ℕ) → length (body_bytes type text) ≡ body_size type text
unfolding body_bytes
length-body_bytes heartbeat text = refl
length-body_bytes retransrequest text = omega (arith, length-text_bytes text)
length-body_bytes message text = omega (arith, length-text_bytes text)

length-pair_bytes : (m : Map ℕ) → length (pair_bytes m) ≡ 8 * length m
unfolding pair_bytes
length-pair_bytes [] = refl
length-pair_bytes ((k, v) ∷ m) =
    rw (length-integer_append, length-integer_append) (omega (arith, length-pair_bytes m))

length-id_bytes : (s : IntSet) → length (id_bytes s) ≡ 4 * length s
unfolding id_bytes
length-id_bytes [] = refl
length-id_bytes (k ∷ s) = rw length-integer_append (omega (arith, length-id_bytes s))

-- The length of an encoding: 32 bytes of integers, the type and the text, eight bytes for each
-- acknowledgement and each counter, and four for each failed node.
pub length-encode :
    (m : Message)
    → length (encode m)
      ≡ 32
        + body_size m.type m.text
        + 8 * (length m.acknowledgements + length m.timestamp.timestamp)
        + 4 * length m.failed_nodes
unfolding encode
length-encode m =
    simp
      (length-append, length-integer_bytes, length-body_bytes, length-pair_bytes, length-id_bytes)
      (omega arith)
