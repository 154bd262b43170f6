-- ===== src/Mcast/Progress.antt =====
-- What every function but `multicast_deliver` leaves alone: the numbers of the last messages, and
-- what was delivered.
use mathlib.Core.Path.{subst}
use ece.Prelude.{
  ℕ, zero, suc, ◌+◌, ◌≡◌, refl, ◌∙◌, Bool, true, false, ◌&&◌, Option, none, some, List, [], ◌∷◌,
  ◌++◌, arith, ◌==◌, if◌then◌else◌, Result, ok, ◌>>=◌, ok-injective, length, leb, >>=-eq-ok,
  Bool-cases, inl, inr, not,
}
use ece.Int32.{inc, sle}
use ece.Map.{Map, IntSet, lookup, member, add}
use ece.Message.{Message}
use ece.Message.Codec.{check, encode}
use ece.State.{ExternalNode, MessageStore, after_read, acknowledged}
use ece.Mcast.{
  Event, deliver, usend, is_empty, Run, emit, set_externals, unicast, unicast_all, delivered_nodes,
  request_loop, retransmission_requests, acknowledged_by_all, delivered_here, clean_loop,
  clean_message_store, heartbeat_send,
}

abbrev pub number_of : Option ExternalNode → Option ℕ
number_of none = none
number_of (some e) = some e.last_sequence_number

-- The number of the last message delivered from a process.
abbrev pub last_of : ℕ → Map ExternalNode → Option ℕ
last_of k es = number_of (lookup k es)

-- How often something was delivered from a process.
abbrev pub deliveries : ℕ → List Event → ℕ
deliveries k [] = 0
deliveries k (deliver source text ∷ es) =
    if source == k then suc (deliveries k es) else deliveries k es
deliveries k (_ ∷ es) = deliveries k es

pub deliveries-append :
    (k : ℕ) (es fs : List Event) → deliveries k (es ++ fs) ≡ deliveries k es + deliveries k fs
deliveries-append k [] fs = omega arith
deliveries-append k (deliver source text ∷ es) fs = ground (arith, deliveries-append k es fs)
deliveries-append k (_ ∷ es) fs = deliveries-append k es fs

pub record SameProgress (r s : Run) : Type 0 where
  pub id : s.state.node.id ≡ r.state.node.id
  pub own : s.state.node.sequence_number ≡ r.state.node.sequence_number
  pub last : (k : ℕ) → last_of k s.state.external_nodes ≡ last_of k r.state.external_nodes
  pub delivered : (k : ℕ) → deliveries k s.out ≡ deliveries k r.out

pub SameProgress-refl : (r : Run) → SameProgress r r
SameProgress-refl r = record { id = refl; own = refl; last = λ k. refl; delivered = λ k. refl }

pub SameProgress-trans : {r s t : Run} → SameProgress r s → SameProgress s t → SameProgress r t
SameProgress-trans a b = record {
  id = b.id ∙ a.id;
  own = b.own ∙ a.own;
  last = λ k. b.last k ∙ a.last k;
  delivered = λ k. b.delivered k ∙ a.delivered k;
}

-- A successful run from r keeps the progress.
abbrev pub Keeps : Run → Result Run → Type 0
Keeps r m = (s : Run) → m ≡ ok s → SameProgress r s

pub Keeps-ok : (r s : Run) → SameProgress r s → Keeps r (ok s)
Keeps-ok r s a t e = subst (λ x. SameProgress r x) (ok-injective e) a

pub Keeps-after : {r s : Run} (m : Result Run) → SameProgress r s → Keeps s m → Keeps r m
Keeps-after m a k t e = SameProgress-trans a (k t e)

pub Keeps-check : (r : Run) (b : Bool) (m : Result Run) → Keeps r m → Keeps r (check b >>= λ _. m)
Keeps-check r true m k = k
Keeps-check r false m k = λ t e. cc

pub Keeps-bind :
    (r : Run) (m : Result Run) (f : Run → Result Run)
    → Keeps r m
    → ((s : Run) → Keeps s (f s))
    → Keeps r (m >>= f)
Keeps-bind r m f k h t e = let (s, p, q) = >>=-eq-ok m f e in SameProgress-trans (k s p) (h s t q)

-- An event that is no delivery changes no progress.
pub emit-SameProgress :
    (e : Event) (r : Run) → ((k : ℕ) → deliveries k (e ∷ []) ≡ 0) → SameProgress r (emit e r)
unfolding emit
emit-SameProgress e r h = record {
  id = refl;
  own = refl;
  last = λ k. refl;
  delivered = λ k. omega (arith, deliveries-append k r.out (e ∷ []), h k);
}

pub unicast-Keeps : (to : ℕ) (m : Message) (r : Run) → Keeps r (unicast to m r)
unfolding unicast emit
unicast-Keeps to m r = elim (Bool-cases (member to r.state.node.failed_nodes)) [
  | inl f ↦ rw f (Keeps-ok r r (SameProgress-refl r))
  | inr f ↦ rw f (elim (Bool-cases (leb (length (encode m)) 1000)) [
    | inl g ↦ rw g (Keeps-ok r _ (emit-SameProgress (usend to (encode m)) r (λ k. refl)))
    | inr g ↦ rw g (λ t e. cc)
  ])
]

pub unicast_all-Keeps : (ids : List ℕ) (m : Message) (r : Run) → Keeps r (unicast_all ids m r)
unfolding unicast_all
unicast_all-Keeps [] m r = Keeps-ok r r (SameProgress-refl r)
unicast_all-Keeps (to ∷ ids) m r =
    Keeps-bind r (unicast to m r) _ (unicast-Keeps to m r) (λ s. unicast_all-Keeps ids m s)

pub delivered_nodes-last :
    (sender_id n : ℕ) (es : Map ExternalNode) (found : IntSet) (k : ℕ)
    → last_of k (delivered_nodes sender_id n es found).1 ≡ last_of k es
unfolding delivered_nodes lookup after_read
delivered_nodes-last sender_id n [] found k = refl
delivered_nodes-last sender_id n ((j, e) ∷ es) found k = ground (
  arith,
  delivered_nodes-last sender_id n es
      (if sle n (acknowledged sender_id e) then add j found else found) k,
)

pub acknowledged_by_all-last :
    (sender_id n : ℕ) (es : Map ExternalNode) (k : ℕ)
    → last_of k (acknowledged_by_all sender_id n es).1 ≡ last_of k es
unfolding acknowledged_by_all lookup after_read
acknowledged_by_all-last sender_id n [] k = refl
acknowledged_by_all-last sender_id n ((j, e) ∷ es) k =
    ground (arith, acknowledged_by_all-last sender_id n es k)

set_externals-SameProgress :
    (es : Map ExternalNode) (r : Run)
    → ((k : ℕ) → last_of k es ≡ last_of k r.state.external_nodes)
    → SameProgress r (set_externals es r)
set_externals-SameProgress es r h = record {
  id = refl;
  own = refl;
  last = h;
  delivered = λ k. refl;
}

request_loop-Keeps :
    (rounds sender_id n i : ℕ) (r : Run) → Keeps r (request_loop rounds sender_id n i r)
unfolding request_loop
request_loop-Keeps zero sender_id n i r = Keeps-ok r r (SameProgress-refl r)
request_loop-Keeps (suc rounds) sender_id n i r =
    let (found, es) = delivered_nodes sender_id n r.state.external_nodes [] in
    Keeps-after _
      (set_externals-SameProgress es r (delivered_nodes-last sender_id n r.state.external_nodes []))
      (Keeps-check _ (not (is_empty found)) _ (
        Keeps-bind _ (unicast_all found _ _) _ (unicast_all-Keeps found _ _)
          (λ s. request_loop-Keeps rounds sender_id n (inc i) s)))

pub retransmission_requests-Keeps :
    (m : Message) (last : ℕ) (r : Run) → Keeps r (retransmission_requests m last r)
unfolding retransmission_requests
retransmission_requests-Keeps m last r = request_loop-Keeps _ _ _ _ r

pub heartbeat_send-Keeps : (r : Run) → Keeps r (heartbeat_send r)
unfolding heartbeat_send
heartbeat_send-Keeps r = unicast_all-Keeps _ _ r

clean_loop-Keeps : (s : MessageStore) (r : Run) → Keeps r (clean_loop s r)
unfolding clean_loop
clean_loop-Keeps [] r t e = Keeps-ok r r (SameProgress-refl r) t e
clean_loop-Keeps ((p, m) ∷ s) r t e =
    let (all, es) = acknowledged_by_all m.sender_id m.sequence_number r.state.external_nodes in
    let (here, p₁, e₁) = >>=-eq-ok (delivered_here m r) _ e in
    elim (Bool-cases (here && all)) [
      | inl erased ↦ cc (rw erased at e₁)
      | inr kept ↦
          SameProgress-trans
            (set_externals-SameProgress es r
              (acknowledged_by_all-last m.sender_id m.sequence_number r.state.external_nodes))
            (clean_loop-Keeps s (set_externals es r) t (rw kept at e₁))
    ]

pub clean_message_store-Keeps : (r : Run) → Keeps r (clean_message_store r)
unfolding clean_message_store
clean_message_store-Keeps r = clean_loop-Keeps r.state.message_store r
