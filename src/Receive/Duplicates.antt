-- ===== src/Receive/Duplicates.antt =====
-- A message that arrives again is ignored.
use ece.Prelude.{ℕ, ◌≡◌, ◌∙◌, refl, true, Option, none, some, arith, ==_self, ok}
use ece.Int32.{sle}
use ece.Message.{Message}
use ece.State.{ExternalNode, get_message, store_message}
use ece.State.Store.{IsFresh, is_found, get_message-store}
use ece.Mcast.{Run, external}
use ece.Receive.{is_stored, is_duplicate, receive_message}

duplicate_lem :
    (p : ℕ) (m : Message) (r : Run) (e : ExternalNode)
    → external m.sender_id r ≡ ok e
    → is_duplicate m e r ≡ true
    → receive_message p m r ≡ ok r
unfolding receive_message
duplicate_lem p m r e h d = rw (h, d)

-- A message whose number is not above the last one delivered from its sender changes nothing: it
-- is not delivered again, not stored, and nothing is sent.
pub receive_message-delivered :
    (p : ℕ) (m : Message) (r : Run) (e : ExternalNode)
    → external m.sender_id r ≡ ok e
    → sle m.sequence_number e.last_sequence_number ≡ true
    → receive_message p m r ≡ ok r
receive_message-delivered p m r e h d = duplicate_lem p m r e h (unfold is_duplicate in rw d)

found-stored : (o : Option Message) → is_stored o ≡ is_found o
found-stored none = refl
found-stored (some m) = refl

stored_again :
    (p : ℕ) (m n : Message) (r : Run) (e : ExternalNode)
    → is_stored (get_message n.sender_id n.sequence_number (store_message p m r.state)) ≡ true
    → is_duplicate n e (record r { state = store_message p m r.state }) ≡ true
unfolding is_duplicate
stored_again p m n r e h = ground arith

-- After a message was stored at a new address, a message with its sender and its number that
-- arrives before the store is cleaned changes nothing.
pub receive_message-stored :
    (p q : ℕ) (m n : Message) (r : Run) (e : ExternalNode)
    → IsFresh p r.state.message_store
    → n.sender_id ≡ m.sender_id
    → n.sequence_number ≡ m.sequence_number
    → external n.sender_id (record r { state = store_message p m r.state }) ≡ ok e
    → receive_message q n (record r { state = store_message p m r.state })
      ≡ ok (record r { state = store_message p m r.state })
receive_message-stored p q m n r e f hs hn h =
    duplicate_lem q n (record r { state = store_message p m r.state }) e h
      (stored_again p m n r e (
        found-stored _
        ∙ get_message-store p m r.state n.sender_id n.sequence_number f
        ∙ rw (hs, hn, ==_self m.sender_id, ==_self m.sequence_number)))
