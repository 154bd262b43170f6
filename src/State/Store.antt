-- ===== src/State/Store.antt =====
-- The message store: what is stored is found.
use ece.Prelude.{ℕ, ◌≡◌, Bool, true, false, ◌||◌, Option, none, some, [], ◌∷◌, arith, ◌==◌}
use ece.Message.{Message}
use ece.State.{
  GlobalState, MessageStore, matches, find_message, get_message, insert_pointer, store_message,
}

-- No message of the store stands at the address, as for any that `new` returns.
abbrev pub IsFresh : ℕ → MessageStore → Type 0
IsFresh p [] = Unit
IsFresh p ((q, m) ∷ s) = ((q == p) ≡ false) × IsFresh p s

abbrev pub is_found : Option Message → Bool
is_found none = false
is_found (some m) = true

find_message-insert :
    (p : ℕ) (m : Message) (s : MessageStore) (from_id n : ℕ)
    → IsFresh p s
    → is_found (find_message from_id n (insert_pointer p m s))
      ≡ (matches from_id n m || is_found (find_message from_id n s))
unfolding find_message insert_pointer
find_message-insert p m [] from_id n f = ground arith
find_message-insert p m ((q, k) ∷ s) from_id n f =
    ground (arith, find_message-insert p m s from_id n f.1)

-- Storing a message at a new address makes it one that is found, and loses no other: a sender and a
-- number are found after that exactly if they are those of the message, or were found before.
pub get_message-store :
    (p : ℕ) (m : Message) (g : GlobalState) (from_id n : ℕ)
    → IsFresh p g.message_store
    → is_found (get_message from_id n (store_message p m g))
      ≡ (matches from_id n m || is_found (get_message from_id n g))
unfolding get_message store_message
get_message-store p m g from_id n f = find_message-insert p m g.message_store from_id n f
