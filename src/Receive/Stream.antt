-- ===== src/Receive/Stream.antt =====
-- Messages that arrive in the order in which their senders numbered them.
use ece.Prelude.{
  All, ℕ, ◌≡◌, refl, sym, ap, ◌∙◌, true, false, Option, some, List, [], ◌∷◌, ◌++◌, append-nil,
  append_assoc, arith, ◌==◌, ==_self, if◌then◌else◌, Result, ok, ◌>>=◌, Bool-cases, inl, inr,
}
use ece.Int32.{slt, inc}
use ece.Message.{Message, message}
use ece.Message.Codec.{encode}
use ece.Message.RoundTrip.{IsEncodable}
use ece.Map.{Map}
use ece.State.{ExternalNode, MessageStore}
use ece.State.Store.{IsFresh}
use ece.Mcast.{Event, deliver, Run, c_string}
use ece.Mcast.Clean.{ack_of, IsLagging}
use ece.Mcast.Progress.{last_of, deliveries}
use ece.Mcast.Next.{IsCaughtUp}
use ece.Receive.{receive_body}
use ece.Receive.Arrival.{Arrives, receive_body-Arrives}

-- What was delivered, from whom.
abbrev pub heard : List Event → List (ℕ × List ℕ)
heard [] = []
heard (deliver source text ∷ es) = (source, text) ∷ heard es
heard (_ ∷ es) = heard es

heard-append : (es fs : List Event) → heard (es ++ fs) ≡ heard es ++ heard fs
heard-append [] fs = refl
heard-append (deliver source text ∷ es) fs =
    ap (λ (l : List (ℕ × List ℕ)). (source, text) ∷ l) (heard-append es fs)
heard-append (_ ∷ es) fs = heard-append es fs

heard_nothing : (es : List Event) → ((k : ℕ) → deliveries k es ≡ 0) → heard es ≡ []
heard_nothing [] h = refl
heard_nothing (deliver source text ∷ es) h =
    absurd (omega (arith, rw (==_self source) at (h source)))
heard_nothing (_ ∷ es) h = heard_nothing es h

-- The calls of `receive` for messages that arrive with the address that each gets.
abbrev pub receive_each : ℕ → List (ℕ × Message) → Run → Result Run
receive_each my_id [] r = ok r
receive_each my_id ((p, m) ∷ ms) r =
    receive_body my_id p m.sender_id (encode m) r >>= receive_each my_id ms

abbrev pub texts : List (ℕ × Message) → List (ℕ × List ℕ)
texts [] = []
texts ((p, m) ∷ ms) = (m.sender_id, c_string m.text) ∷ texts ms

-- Each message of others, at its turn, is the one after the last of its sender.
abbrev pub AreNext : ℕ → (ℕ → Option ℕ) → List (ℕ × Message) → Type 0
AreNext own last [] = Unit
AreNext own last ((p, m) ∷ ms) =
    ((m.sender_id == own) ≡ false)
    × ((before : ℕ) × (last m.sender_id ≡ some before)
        × (m.sequence_number ≡ inc before)
        × (slt before m.sequence_number ≡ true))
    × AreNext own (λ k. if m.sender_id == k then some m.sequence_number else last k) ms

AreNext-last :
    (own : ℕ) (ms : List (ℕ × Message)) (f g : ℕ → Option ℕ)
    → ((k : ℕ) → g k ≡ f k)
    → AreNext own f ms
    → AreNext own g ms
AreNext-last own [] f g h a = tt
AreNext-last own ((p, m) ∷ ms) f g h (other, (b, l, n, u), rest) = (
  other,
  (b, h m.sender_id ∙ l, n, u),
  AreNext-last own ms (λ k. if m.sender_id == k then some m.sequence_number else f k)
      (λ k. if m.sender_id == k then some m.sequence_number else g k)
      (λ k. elim (Bool-cases (m.sender_id == k)) [
        | inl same ↦ rw same refl
        | inr apart ↦ rw apart (h k)
      ])
      rest,
)

-- The messages are of the type MESSAGE and fit the format.
abbrev pub AreEncodable : List (ℕ × Message) → Type 0
AreEncodable [] = Unit
AreEncodable ((p, m) ∷ ms) = (m.type ≡ message) × IsEncodable m × AreEncodable ms

abbrev pub IsApart : ℕ → List (ℕ × Message) → Type 0
IsApart p [] = Unit
IsApart p ((q, m) ∷ ms) = ((p == q) ≡ false) × IsApart p ms

-- The addresses are new to the store and to each other.
abbrev pub AreFresh : List (ℕ × Message) → MessageStore → Type 0
AreFresh [] s = Unit
AreFresh ((p, m) ∷ ms) s = IsFresh p s × IsApart p ms × AreFresh ms s

AreFresh-after :
    (z p : ℕ) (m : Message) (r t : Run) (ms : List (ℕ × Message))
    → Arrives z p r m t
    → IsApart p ms
    → AreFresh ms r.state.message_store
    → AreFresh ms t.state.message_store
AreFresh-after z p m r t [] x a f = tt
AreFresh-after z p m r t ((q, n) ∷ ms) x (a, rest) (f, apart, fs) =
    (x.fresh q a f, apart, AreFresh-after z p m r t ms x rest fs)

-- Process z sends none of the messages, and is not known to have delivered any.
abbrev pub AreLagging : ℕ → Map ExternalNode → List (ℕ × Message) → Type 0
AreLagging z es [] = Unit
AreLagging z es ((p, m) ∷ ms) =
    ((m.sender_id == z) ≡ false) × IsLagging z es (p, m) × AreLagging z es ms

AreLagging-acks :
    (z : ℕ) (es fs : Map ExternalNode) (ms : List (ℕ × Message))
    → ((k : ℕ) → ack_of z k fs ≡ ack_of z k es)
    → AreLagging z es ms
    → AreLagging z fs ms
AreLagging-acks z es fs [] h a = tt
AreLagging-acks z es fs ((p, m) ∷ ms) h (apart, (n, g, l), a) =
    (apart, (n, h m.sender_id ∙ g, l), AreLagging-acks z es fs ms h a)

heard-next :
    (z p : ℕ) (m : Message) (r t : Run) (l : List (ℕ × List ℕ))
    → Arrives z p r m t
    → heard t.out ++ l ≡ heard r.out ++ (m.sender_id, c_string m.text) ∷ l
heard-next z p m r t l x =
    let said : Event = deliver m.sender_id (c_string m.text) in
    let split : heard t.out ≡ heard r.out ++ (m.sender_id, c_string m.text) ∷ [] =
      ap heard x.out
      ∙ heard-append (r.out ++ x.events) (said ∷ [])
      ∙ rw (heard-append r.out x.events, heard_nothing x.events x.quiet, append-nil (heard r.out))
          refl in
    rw split (append_assoc (heard r.out) ((m.sender_id, c_string m.text) ∷ []) l)

-- A process that has delivered, of the others' messages, all that it stores, and receives any
-- messages of others, those of each sender in the order of their numbers and without a gap, delivers
-- the texts of all of them in the order in which they arrive, and nothing else. (They fit the
-- format, no number wraps, they are stored at new addresses, and some process, which sends none of
-- them, is not known to have delivered them or any message that is stored.)
pub receive_each-texts :
    (z my_id : ℕ) (ms : List (ℕ × Message)) (r : Run)
    → r.state.node.id ≡ my_id
    → AreNext my_id (λ k. last_of k r.state.external_nodes) ms
    → AreEncodable ms
    → AreFresh ms r.state.message_store
    → IsCaughtUp r
    → AreLagging z r.state.external_nodes ms
    → All (IsLagging z r.state.external_nodes) r.state.message_store
    → (t : Run) × (receive_each my_id ms r ≡ ok t)
      × (heard t.out ≡ heard r.out ++ texts ms)
      × IsCaughtUp t
receive_each-texts z my_id [] r own n e f c lag all_lag =
    (r, refl, sym (append-nil (heard r.out)), c)
receive_each-texts z my_id ((p, m) ∷ ms) r own (other, (before, l, k, u), rest) (ty, e, es)
      (f, apart, fs) c (other_z, lag, lags) all_lag =
    let (t, h, x) =
      receive_body-Arrives z my_id p m.sender_id before m [] r other e ty
        (record { other = rw own other; last = l; follows = k; above = u }) f c other_z lag
        all_lag in
    let (v, g, o, d) =
      receive_each-texts z my_id ms t (x.id ∙ own) (AreNext-last my_id ms _ _ x.last rest) es
        (AreFresh-after z p m r t ms x apart fs) x.caught_up
        (AreLagging-acks z r.state.external_nodes t.state.external_nodes ms x.acknowledges lags)
        x.lagging in
    (
      v,
      ap (λ (o : Result Run). o >>= receive_each my_id ms)
            (ap (λ (bytes : List ℕ). receive_body my_id p m.sender_id bytes r)
                (sym (append-nil (encode m)))
              ∙ h)
          ∙ g,
      o ∙ heard-next z p m r t (texts ms) x,
      d,
    )
