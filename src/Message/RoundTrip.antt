-- ===== src/Message/RoundTrip.antt =====
-- The constructor from bytes reads back what `getEncodedMessage` wrote.
use ece.Prelude.{
  ℕ, ◌+◌, ◌-◌, ◌*◌, ◌%◌, ◌<◌, ◌≡◌, refl, ap, true, List, [], ◌∷◌, ◌++◌, append_assoc, length,
  lt→ltb, arith, ok,
}
use ece.Int32.{word, IsInt}
use ece.Map.{Map, IntSet, insert, insert_all, add, add_all}
use ece.Map.Order.{IsSorted, insert_all-nil}
use ece.Map.Sets
use ece.Map.Sets.{add_all-nil}
use ece.Timestamp.{of_map}
use ece.Message.{Message, MessageType, heartbeat, retransrequest, message}
use ece.Message.Codec.{
  munch_integer, munch_char, take_bytes, munch_text, munch_body, munch_type, rounds, munch_pairs,
  munch_ids, decode_fields, decode, integer_bytes, text_bytes, body_bytes, pair_bytes, id_bytes,
  encode,
}

abbrev pub ValuesAreInts : Map ℕ → Type 0
ValuesAreInts [] = Unit
ValuesAreInts ((k, v) ∷ m) = IsInt v × ValuesAreInts m

-- A map that its block of the format can hold.
pub record Fits (m : Map ℕ) : Type 0 where
  pub sorted : IsSorted m
  pub ints : ValuesAreInts m
  pub size : length m * 8 < 2147483648

-- A heartbeat has no text.
abbrev pub TextFits : MessageType → List ℕ → Type 0
TextFits heartbeat text = text ≡ []
TextFits retransrequest text = Unit
TextFits message text = Unit

-- A message that the format can hold: ints in their range, maps that ascend, sizes that an int
-- counts, and no text on a heartbeat.
pub record IsEncodable (m : Message) : Type 0 where
  pub sender : IsInt m.sender_id
  pub sequence : IsInt m.sequence_number
  pub text_size : length m.text + 1 < 2147483648
  pub no_text : TextFits m.type m.text
  pub acknowledgements : Fits m.acknowledgements
  pub timestamp : Fits m.timestamp.timestamp
  pub failed_nodes : Sets.IsSorted m.failed_nodes
  pub failed_size : length m.failed_nodes * 4 < 2147483648

-- What arrives of a message: the receiver owns the timestamp, which belongs to the sender and has
-- no deltas yet.
unfoldable pub arrived : Message → Message
arrived m = record m { needs_delete = true; timestamp = of_map m.sender_id m.timestamp.timestamp }

module _ (n : ℕ) (rest : List ℕ) where
  pub munch-integer_bytes : IsInt n → munch_integer (integer_bytes n ++ rest) ≡ ok (n, rest)
  unfolding munch_integer integer_bytes
  munch-integer_bytes h = ap (λ k. ok (k, rest)) (omega arith)

take_bytes-append : (s rest : List ℕ) → take_bytes (length s) (s ++ rest) ≡ ok (s, rest)
unfolding take_bytes
take_bytes-append [] rest = refl
take_bytes-append (b ∷ s) rest = rw (take_bytes-append s rest)

size_less_one : (n : ℕ) → n + 1 < 2147483648 → ((n + 1) % word + word - 1) % word ≡ n
size_less_one n h = omega arith

munch-text_bytes :
    (text rest : List ℕ)
    → length text + 1 < 2147483648
    → munch_text (text_bytes text ++ rest) ≡ ok (text, rest)
unfolding munch_text text_bytes
munch-text_bytes text rest h = rw (
  append_assoc (integer_bytes ((length text + 1) % word)) (text ++ (0 ∷ [])) rest,
  munch-integer_bytes ((length text + 1) % word) _ (omega arith),
  size_less_one (length text) h,
  lt→ltb (length text) 2147483648 (omega arith),
  append_assoc text (0 ∷ []) rest,
  take_bytes-append text (0 ∷ rest),
)

munch-body_bytes :
    (type : MessageType) (text rest : List ℕ)
    → length text + 1 < 2147483648
    → TextFits type text
    → munch_type (body_bytes type text ++ rest) ≡ ok (type, text, rest)
unfolding munch_type munch_char munch_body body_bytes
munch-body_bytes heartbeat text rest h e = rw e
munch-body_bytes retransrequest text rest h e = rw (munch-text_bytes text rest h)
munch-body_bytes message text rest h e = rw (munch-text_bytes text rest h)

rounds-mul : (n : ℕ) → n * 8 < 2147483648 → rounds (n * 8 % word) 8 ≡ n
unfolding rounds
rounds-mul n h = ground arith

rounds-mul_four : (n : ℕ) → n * 4 < 2147483648 → rounds (n * 4 % word) 4 ≡ n
unfolding rounds
rounds-mul_four n h = ground arith

munch-pair_bytes :
    (m acc : Map ℕ) (rest : List ℕ)
    → IsSorted m
    → ValuesAreInts m
    → munch_pairs (length m) acc (pair_bytes m ++ rest) ≡ ok (insert_all m acc, rest)
unfolding munch_pairs pair_bytes insert_all
munch-pair_bytes [] acc rest s v = refl
munch-pair_bytes ((k, w) ∷ m) acc rest s v =
    rw
      (
        append_assoc (integer_bytes k) (integer_bytes w ++ pair_bytes m) rest,
        munch-integer_bytes k _ s.0,
        append_assoc (integer_bytes w) (pair_bytes m) rest,
        munch-integer_bytes w _ v.0,
      )
      (munch-pair_bytes m (insert k w acc) rest s.2 v.1)

munch-id_bytes :
    (s acc : IntSet) (rest : List ℕ)
    → Sets.IsSorted s
    → munch_ids (length s) acc (id_bytes s ++ rest) ≡ ok (add_all s acc, rest)
unfolding munch_ids id_bytes add_all
munch-id_bytes [] acc rest h = refl
munch-id_bytes (k ∷ s) acc rest h =
    rw (append_assoc (integer_bytes k) (id_bytes s) rest, munch-integer_bytes k _ h.0)
      (munch-id_bytes s (add k acc) rest h.2)

-- One block of the format, with the blocks behind it.
module _ (more rest : List ℕ) where
  next_integer :
      (n : ℕ) → IsInt n → munch_integer ((integer_bytes n ++ more) ++ rest) ≡ ok (n, more ++ rest)
  next_integer n h = rw (append_assoc (integer_bytes n) more rest) (munch-integer_bytes n _ h)

  next_body :
      (type : MessageType) (text : List ℕ)
      → length text + 1 < 2147483648
      → TextFits type text
      → munch_type ((body_bytes type text ++ more) ++ rest) ≡ ok (type, text, more ++ rest)
  next_body type text h e =
      rw (append_assoc (body_bytes type text) more rest) (munch-body_bytes type text _ h e)

  next_pairs :
      (m : Map ℕ)
      → Fits m
      → munch_pairs (length m) [] ((pair_bytes m ++ more) ++ rest) ≡ ok (m, more ++ rest)
  next_pairs m f = rw (
    append_assoc (pair_bytes m) more rest,
    munch-pair_bytes m [] (more ++ rest) f.sorted f.ints,
    insert_all-nil m f.sorted,
  )

last_ids :
    (s : IntSet) (rest : List ℕ)
    → Sets.IsSorted s
    → munch_ids (length s) [] (id_bytes s ++ rest) ≡ ok (s, rest)
last_ids s rest h = rw (munch-id_bytes s [] rest h, add_all-nil s h)

-- The constructor reads back a message that was encoded, whatever stands behind it in the buffer.
pub decode-encode :
    (m : Message) (rest : List ℕ) → IsEncodable m → decode (encode m ++ rest) ≡ ok (arrived m)
unfolding decode decode_fields encode arrived
decode-encode m rest f =
    let small : (n : ℕ) → IsInt (n % word) = λ n. omega arith in
    rw (
      next_integer _ rest 1 (omega arith),
      next_body _ rest m.type m.text f.text_size f.no_text,
      next_integer _ rest 1 (omega arith),
      next_integer _ rest m.sender_id f.sender,
      next_integer _ rest 1 (omega arith),
      next_integer _ rest m.sequence_number f.sequence,
      next_integer _ rest (length m.acknowledgements * 8 % word)
          (small (length m.acknowledgements * 8)),
      rounds-mul (length m.acknowledgements) f.acknowledgements.size,
      next_pairs _ rest m.acknowledgements f.acknowledgements,
      next_integer _ rest (length m.timestamp.timestamp * 4 % word)
          (small (length m.timestamp.timestamp * 4)),
      rounds-mul_four (length m.timestamp.timestamp) (omega (arith, f.timestamp.size)),
      next_pairs _ rest m.timestamp.timestamp f.timestamp,
      next_integer _ rest (length m.failed_nodes * 4 % word) (small (length m.failed_nodes * 4)),
      rounds-mul_four (length m.failed_nodes) f.failed_size,
      last_ids m.failed_nodes rest f.failed_nodes,
    )
