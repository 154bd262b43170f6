-- ===== src/Receive/Journey.antt =====
-- A multicast of one process with the receipt of another.
use ece.Prelude.{
  All, ℕ, ◌≤◌, ◌≡◌, refl, ap, sym, ◌∙◌, false, some, List, [], ◌∷◌, ◌++◌, append_assoc, length,
  ◌==◌, ==→eq, ok, Bool-cases, inl, inr,
}
use ece.Map.{Map, IntSet, keys, lookup, member}
use ece.Message.{Message, make}
use ece.Message.Codec.{encode}
use ece.Message.RoundTrip.{IsEncodable}
use ece.State.{ExternalNode, sequence_number_increment}
use ece.State.Store.{IsFresh}
use ece.Mcast.{Event, deliver, usend, Run, c_string, multicast_body}
use ece.Mcast.Clean.{IsLagging}
use ece.Mcast.Progress.{deliveries}
use ece.Mcast.Send.{live, packets, ticked, multicast_of, multicast_body-packets, c_string-c_string}
use ece.Mcast.Next.{IsNext, IsCaughtUp}
use ece.Receive.{receive_body}
use ece.Receive.Arrival.{receive_body-Arrives}

-- Among the events is the sending of the bytes to a process.
abbrev pub Sends : ℕ → List ℕ → List Event → Type 0
Sends to bytes es = (xs ys : List Event) × (es ≡ xs ++ usend to bytes ∷ ys)

Sends-after :
    (to : ℕ) (bytes : List ℕ) (es fs : List Event) → Sends to bytes fs → Sends to bytes (es ++ fs)
Sends-after to bytes es fs (xs, ys, h) =
    (es ++ xs, ys, rw h (sym (append_assoc es xs (usend to bytes ∷ ys))))

packets-Sends :
    (m : Message) (failed : IntSet) (to : ℕ) (x : ExternalNode) (es : Map ExternalNode)
    → lookup to es ≡ some x
    → member to failed ≡ false
    → Sends to (encode m) (packets m (live failed (keys es)))
unfolding lookup
packets-Sends m failed to x [] h f = cc
packets-Sends m failed to x ((k, e) ∷ es) h f = elim (Bool-cases (k == to)) [
  | inl here ↦
      let same = ==→eq k to here in
      let f' : member k failed ≡ false = ap (λ (j : ℕ). member j failed) same ∙ f in
      let rest = packets m (live failed (keys es)) in
      rw f' ([], rest, ap (λ (j : ℕ). usend j (encode m) ∷ rest) same)
  | inr other ↦
      let (xs, ys, e) = packets-Sends m failed to x es (rw other at h) f in
      elim (Bool-cases (member k failed)) [
        | inl g ↦ rw g (xs, ys, e)
        | inr g ↦
            rw g (usend k (encode m) ∷ xs, ys, ap (λ (es : List Event). usend k (encode m) ∷ es) e)
      ]
]

-- A multicast that fits the buffer is sent to each external node that is not believed to have
-- failed. A process that gets these bytes, with anything behind them, as the next ones of the
-- sender delivers the text of the multicast up to its first zero byte, and nothing else, and has
-- delivered all that it stores, as it had before. (The message fits the format, its number does not
-- wrap, it is stored at a new address, and some third process is not known to have delivered it or
-- any message that the receiver stores.)
pub receive_body-multicast_body :
    (q : ℕ) (text : List ℕ) (a : Run) (to : ℕ) (x : ExternalNode) (my_id p before z : ℕ)
    (rest : List ℕ) (b : Run)
    → lookup to a.state.external_nodes ≡ some x
    → member to a.state.node.failed_nodes ≡ false
    → length (encode (multicast_of text (ticked a).state)) ≤ 1000
    → IsEncodable (multicast_of text (ticked a).state)
    → (a.state.node.id == my_id) ≡ false
    → IsNext b (multicast_of text (ticked a).state) before
    → IsFresh p b.state.message_store
    → IsCaughtUp b
    → (a.state.node.id == z) ≡ false
    → IsLagging z b.state.external_nodes (p, multicast_of text (ticked a).state)
    → All (IsLagging z b.state.external_nodes) b.state.message_store
    → (sent : Run) × (bytes : List ℕ) × (t : Run) × (multicast_body q text a ≡ ok sent)
      × Sends to bytes sent.out
      × (receive_body my_id p a.state.node.id (bytes ++ rest) b ≡ ok t)
      × ((events : List Event) × (t.out
            ≡ b.out ++ events ++ deliver a.state.node.id (c_string text) ∷ [])
          × ((k : ℕ) → deliveries k events ≡ 0))
      × IsCaughtUp t
unfolding make sequence_number_increment
receive_body-multicast_body q text a to x my_id p before z rest b known live_there fits f s i fresh
      c apart lags all_lag =
    let m = multicast_of text (ticked a).state in
    let (t, r, d) =
      receive_body-Arrives z my_id p a.state.node.id before m rest b s f refl i fresh c apart lags
        all_lag in
    let o =
      packets-Sends m a.state.node.failed_nodes to x a.state.external_nodes known live_there in
    (
      _,
      encode m,
      t,
      multicast_body-packets q text a fits,
      Sends-after to (encode m) a.out _
          (Sends-after to (encode m) (deliver a.state.node.id (c_string text) ∷ []) _ o),
      r,
      (d.events, d.out ∙ rw (c_string-c_string text) refl, d.quiet),
      d.caught_up,
    )
