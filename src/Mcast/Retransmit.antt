-- ===== src/Mcast/Retransmit.antt =====
-- Retransmission requests: when the assertion in them cannot fail, and which numbers they ask for.
use ece.Prelude.{
  ℕ, zero, suc, ◌-◌, ◌≡◌, refl, sym, ap, ◌∙◌, Bool, true, false, ◌&&◌, ◌||◌, not, some, List, [],
  ◌∷◌, arith, if◌then◌else◌, Result, ok, ◌>>=◌, >>=-eq-ok, ok-injective, IsSafe, IsSafe-ok,
  IsSafe-bind,
}
use ece.Int32.{key, inc, sle}
use ece.Map.{Map, IntSet, lookup, add, get_or-touch}
use ece.Message.{Message}
use ece.Message.Codec.{check}
use ece.State.{ExternalNode, acknowledged, after_read}
use ece.Mcast.{
  Run, emit, unicast, unicast_all, delivered_nodes, is_empty, request_loop, retransmission_requests,
}

-- Some process of the group is known to have delivered the message numbered n of a sender.
abbrev pub some_has : ℕ → ℕ → Map ExternalNode → Bool
some_has sender_id n [] = false
some_has sender_id n ((k, e) ∷ es) = sle n (acknowledged sender_id e) || some_has sender_id n es

pub some_has-lookup :
    (sender_id n k : ℕ) (es : Map ExternalNode) (e : ExternalNode)
    → lookup k es ≡ some e
    → sle n (acknowledged sender_id e) ≡ true
    → some_has sender_id n es ≡ true
unfolding lookup
some_has-lookup sender_id n k [] e h g = cc
some_has-lookup sender_id n k ((j, f) ∷ es) e h g =
    ground (arith, some_has-lookup sender_id n k es e)

is_empty-add : (k : ℕ) (s : IntSet) → is_empty (add k s) ≡ false
unfolding is_empty add
is_empty-add k [] = refl
is_empty-add k (j ∷ s) = ground arith

acknowledged-read :
    (s k : ℕ) (e : ExternalNode) → acknowledged s (after_read k e) ≡ acknowledged s e
unfolding after_read
acknowledged-read s k e = get_or-touch k s 0 e.delivery_ack_list

module _ (sender_id n : ℕ) where
  delivered_nodes-empty :
      (es : Map ExternalNode) (found : IntSet)
      → is_empty (delivered_nodes sender_id n es found).0
        ≡ (is_empty found && not (some_has sender_id n es))
  unfolding delivered_nodes
  delivered_nodes-empty [] found = ground arith
  delivered_nodes-empty ((k, e) ∷ es) found = ground (
    arith,
    is_empty-add k found,
    delivered_nodes-empty es (if sle n (acknowledged sender_id e) then add k found else found),
  )

  delivered_nodes-has :
      (es : Map ExternalNode) (found : IntSet)
      → some_has sender_id n (delivered_nodes sender_id n es found).1 ≡ some_has sender_id n es
  unfolding delivered_nodes
  delivered_nodes-has [] found = refl
  delivered_nodes-has ((k, e) ∷ es) found = ground (
    arith,
    acknowledged-read sender_id sender_id e,
    delivered_nodes-has es (if sle n (acknowledged sender_id e) then add k found else found),
  )

unicast-state : (to : ℕ) (m : Message) (r s : Run) → unicast to m r ≡ ok s → s.state ≡ r.state
unfolding unicast emit
unicast-state to m r s h = ground arith

unicast_all-state :
    (ids : List ℕ) (m : Message) (r s : Run) → unicast_all ids m r ≡ ok s → s.state ≡ r.state
unfolding unicast_all
unicast_all-state [] m r s h = sym (ap (λ (x : Run). x.state) (ok-injective h))
unicast_all-state (to ∷ ids) m r s h =
    let (t, p, q) = >>=-eq-ok (unicast to m r) _ h in
    unicast_all-state ids m t s q ∙ unicast-state to m r t p

pub unicast-IsSafe : (to : ℕ) (m : Message) (r : Run) → IsSafe (unicast to m r)
unfolding unicast
unicast-IsSafe to m r = λ h. ground arith

pub unicast_all-IsSafe : (ids : List ℕ) (m : Message) (r : Run) → IsSafe (unicast_all ids m r)
unfolding unicast_all
unicast_all-IsSafe [] m r = IsSafe-ok r
unicast_all-IsSafe (to ∷ ids) m r =
    IsSafe-bind (unicast to m r) _ (unicast-IsSafe to m r) (λ s _. unicast_all-IsSafe ids m s)

IsSafe-check : (b : Bool) (m : Result Run) → b ≡ true → IsSafe m → IsSafe (check b >>= λ _. m)
IsSafe-check true m e h = h
IsSafe-check false m e h = cc

found_some :
    (sender_id n : ℕ) (es : Map ExternalNode)
    → some_has sender_id n es ≡ true
    → not (is_empty (delivered_nodes sender_id n es []).0) ≡ true
unfolding is_empty
found_some sender_id n es h = ground (arith, delivered_nodes-empty sender_id n es [])

pub request_loop-IsSafe :
    (rounds sender_id n i : ℕ) (r : Run)
    → some_has sender_id n r.state.external_nodes ≡ true
    → IsSafe (request_loop rounds sender_id n i r)
unfolding request_loop
request_loop-IsSafe zero sender_id n i r h = IsSafe-ok r
request_loop-IsSafe (suc rounds) sender_id n i r h =
    IsSafe-check (not (is_empty (delivered_nodes sender_id n r.state.external_nodes []).0)) _
      (found_some sender_id n r.state.external_nodes h)
      (IsSafe-bind (unicast_all _ _ _) (λ s. request_loop rounds sender_id n (inc i) s)
        (unicast_all-IsSafe _ _ _)
        (λ s e. request_loop-IsSafe rounds sender_id n (inc i) s (
          rw (unicast_all-state _ _ _ s e)
            (delivered_nodes-has sender_id n r.state.external_nodes [] ∙ h))))

pub retransmission_requests-IsSafe :
    (m : Message) (last : ℕ) (r : Run)
    → some_has m.sender_id m.sequence_number r.state.external_nodes ≡ true
    → IsSafe (retransmission_requests m last r)
unfolding retransmission_requests
retransmission_requests-IsSafe m last r h = request_loop-IsSafe _ _ _ _ r h

no_rounds : (a b : ℕ) → sle a b ≡ true → key a - key b ≡ zero
unfolding sle
no_rounds a b h = ground arith

-- No request is made for a message that is the next one or an old one.
pub retransmission_requests-none :
    (m : Message) (last : ℕ) (r : Run)
    → sle m.sequence_number (inc last) ≡ true
    → retransmission_requests m last r ≡ ok r
unfolding retransmission_requests request_loop
retransmission_requests-none m last r h =
    ap (λ k. request_loop k m.sender_id m.sequence_number (inc last) r)
      (no_rounds m.sequence_number (inc last) h)
