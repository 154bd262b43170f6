-- ===== src/Message/Codec.antt =====
-- MP1/message/message.cc: the bytes of a message. Integers are stored as the machine stores an
-- `int`: four bytes, the lowest first.
use ece.Prelude.{
  ℕ, zero, suc, ◌+◌, ◌-◌, ◌*◌, ◌/◌, ◌%◌, Bool, true, false, List, [], ◌∷◌, ◌++◌, length, ltb, ◌==◌,
  if◌then◌else◌, Result, ok, fault, ◌>>=◌, assertion_failed, over_read, length_error,
}
use ece.Int32.{word}
use ece.Map.{Map, IntSet, insert, add}
use ece.Timestamp.{of_map}
use ece.Message.{Message, MessageType, heartbeat, retransrequest, message}

-- `munchInteger`: the integer at the front of the buffer, and the buffer behind it.
unfoldable pub munch_integer : List ℕ → Result (ℕ × List ℕ)
munch_integer (a ∷ b ∷ c ∷ d ∷ rest) = ok (a + 256 * b + 65536 * c + 16777216 * d, rest)
munch_integer _ = fault over_read

unfoldable pub munch_char : List ℕ → Result (ℕ × List ℕ)
munch_char [] = fault over_read
munch_char (c ∷ rest) = ok (c, rest)

-- `assert(b)`
abbrev pub check : Bool → Result (Unit {0})
check true = ok tt
check false = fault assertion_failed

-- The first n bytes of the buffer, and the buffer behind them.
unfoldable pub take_bytes : ℕ → List ℕ → Result (List ℕ × List ℕ)
take_bytes zero buffer = ok ([], buffer)
take_bytes (suc n) [] = fault over_read
take_bytes (suc n) (b ∷ buffer) = do (s, rest) ← take_bytes n buffer; ok (b ∷ s, rest)

abbrev pub drop_one : List ℕ → List ℕ
drop_one [] = []
drop_one (b ∷ rest) = rest

-- `string(encoded, messageSize - 1)` and `encoded += messageSize`: the size counts a terminator. A
-- negative length is a huge `size_t`, which the constructor of `string` refuses.
unfoldable pub munch_text : List ℕ → Result (List ℕ × List ℕ)
munch_text buffer = do
  (size, rest) ← munch_integer buffer
  let n = (size + word - 1) % word
  (text, rest) ← (if ltb n 2147483648 then take_bytes n rest else fault length_error)
  ok (text, drop_one rest)

-- The switch on the type, whose assertion stands in front of it.
unfoldable pub munch_body : ℕ → List ℕ → Result (MessageType × List ℕ × List ℕ)
munch_body tp rest =
    if tp == b'H'
    then ok (heartbeat, [], rest)
    else if tp == b'R'
    then (do (text, rest) ← munch_text rest; ok (retransrequest, text, rest))
    else if tp == b'M'
    then (do (text, rest) ← munch_text rest; ok (message, text, rest))
    else fault assertion_failed

unfoldable pub munch_type : List ℕ → Result (MessageType × List ℕ × List ℕ)
munch_type buffer = do (tp, rest) ← munch_char buffer; munch_body tp rest

-- The rounds of `for (int i = 0; i < n; ++i)`, where n is a byte count divided by a `size_t`: the
-- count is widened to 64 bits with its sign, and the quotient is cut to an int.
unfoldable pub rounds : ℕ → ℕ → ℕ
rounds bytes size =
    let wide = if ltb bytes 2147483648 then bytes else bytes + 18446744069414584320 in
    let n = wide / size % word in if ltb n 2147483648 then n else 0

unfoldable pub munch_pairs : ℕ → Map ℕ → List ℕ → Result (Map ℕ × List ℕ)
munch_pairs zero m buffer = ok (m, buffer)
munch_pairs (suc n) m buffer = do
  (id, rest) ← munch_integer buffer
  (count, rest) ← munch_integer rest
  munch_pairs n (insert id count m) rest

unfoldable pub munch_ids : ℕ → IntSet → List ℕ → Result (IntSet × List ℕ)
munch_ids zero s buffer = ok (s, buffer)
munch_ids (suc n) s buffer = do (id, rest) ← munch_integer buffer; munch_ids n (add id s) rest

-- The part behind the type and the text.
unfoldable pub decode_fields : MessageType → List ℕ → List ℕ → Result Message
decode_fields type text buffer = do
  (sender_id_size, buffer) ← munch_integer buffer
  _ ← check (sender_id_size == 1)
  (sender_id, buffer) ← munch_integer buffer
  (sequence_size, buffer) ← munch_integer buffer
  _ ← check (sequence_size == 1)
  (sequence_number, buffer) ← munch_integer buffer
  (ack_list_bytes, buffer) ← munch_integer buffer
  (acknowledgements, buffer) ← munch_pairs (rounds ack_list_bytes 8) [] buffer
  (timestamp_bytes, buffer) ← munch_integer buffer
  (ts, buffer) ← munch_pairs (rounds timestamp_bytes 4) [] buffer
  (failed_nodes_bytes, buffer) ← munch_integer buffer
  (failed_nodes, buffer) ← munch_ids (rounds failed_nodes_bytes 4) [] buffer
  ok (record {
    sender_id = sender_id;
    sequence_number = sequence_number;
    needs_delete = true;
    timestamp = of_map sender_id ts;
    type = type;
    text = text;
    acknowledgements = acknowledgements;
    failed_nodes = failed_nodes;
  })

-- `Message(const char* encoded, int len)`, which does not read `len`.
unfoldable pub decode : List ℕ → Result Message
decode buffer = do
  (type_size, buffer) ← munch_integer buffer
  _ ← check (type_size == 1)
  (type, text, buffer) ← munch_type buffer
  decode_fields type text buffer

-- `appendInteger`
unfoldable pub integer_bytes : ℕ → List ℕ
integer_bytes n = n % 256 ∷ n / 256 % 256 ∷ n / 65536 % 256 ∷ n / 16777216 % 256 ∷ []

unfoldable pub text_bytes : List ℕ → List ℕ
text_bytes text = integer_bytes ((length text + 1) % word) ++ (text ++ (0 ∷ []))

unfoldable pub body_bytes : MessageType → List ℕ → List ℕ
body_bytes heartbeat text = b'H' ∷ []
body_bytes retransrequest text = b'R' ∷ text_bytes text
body_bytes message text = b'M' ∷ text_bytes text

unfoldable pub pair_bytes : Map ℕ → List ℕ
pair_bytes [] = []
pair_bytes ((k, v) ∷ m) = integer_bytes k ++ (integer_bytes v ++ pair_bytes m)

unfoldable pub id_bytes : IntSet → List ℕ
id_bytes [] = []
id_bytes (k ∷ s) = integer_bytes k ++ id_bytes s

-- `getEncodedMessage`: what it writes; its result is the length.
unfoldable pub encode : Message → List ℕ
encode m =
    let ts = m.timestamp.timestamp in
    integer_bytes 1
    ++ (body_bytes m.type m.text
        ++ (integer_bytes 1
            ++ (integer_bytes m.sender_id
                ++ (integer_bytes 1
                    ++ (integer_bytes m.sequence_number
                        ++ (integer_bytes (length m.acknowledgements * 8 % word)
                            ++ (pair_bytes m.acknowledgements
                                ++ (integer_bytes (length ts * 4 % word)
                                    ++ (pair_bytes ts
                                        ++ (integer_bytes (length m.failed_nodes * 4 % word)
                                            ++ id_bytes m.failed_nodes))))))))))
