-- ===== src/Mcast/Deliver.antt =====
-- Deliveries are counted: the numbers that a process keeps say how often it has delivered something
-- from each process.
use mathlib.Core.Path.{subst}
use native.Mathlib.Nat.{add-zero}
use ece.Prelude.{
  ℕ, ◌%◌, ◌≡◌, refl, ◌∙◌, false, Option, none, some, [], ◌∷◌, ◌++◌, arith, ◌==◌, if◌then◌else◌, ok,
  >>=-eq-ok, ok-injective, Bool-cases, inl, inr, ==→eq,
}
use ece.Int32.{word, inc}
use ece.Map.{Map, insert, lookup-insert}
use ece.Message.{Message}
use ece.State.{ExternalNode, last_sequence_number_increment}
use ece.Mcast.{deliver, Run, emit, external, c_string, count_delivery, multicast_deliver}
use ece.Mcast.Progress.{last_of, deliveries, deliveries-append, SameProgress}

-- A number that is kept for a process counts its deliveries.
abbrev pub Counts : Option ℕ → ℕ → Type 0
Counts none d = Unit
Counts (some n) d = d % word ≡ n

pub Counts-eq : (o : Option ℕ) (d n : ℕ) → o ≡ some n → Counts o d → d % word ≡ n
Counts-eq o d n e c = subst (λ o. Counts o d) e c

-- The own sequence number and the last number of each other process are the numbers of deliveries,
-- as ints.
pub record IsCounted (r : Run) : Type 0 where
  pub unlisted : last_of r.state.node.id r.state.external_nodes ≡ none
  pub own : deliveries r.state.node.id r.out % word ≡ r.state.node.sequence_number
  pub others : (k : ℕ) → Counts (last_of k r.state.external_nodes) (deliveries k r.out)

pub SameProgress-IsCounted : {r s : Run} → SameProgress r s → IsCounted r → IsCounted s
SameProgress-IsCounted {r} {s} a c = record {
  unlisted = rw a.id (a.last r.state.node.id ∙ c.unlisted);
  own = rw (a.id, a.delivered r.state.node.id, a.own) c.own;
  others = λ k. rw (a.delivered k, a.last k) (c.others k);
}

-- A delivery from another process: the run that it leads to.
pub record Delivers (m : Message) (r s : Run) : Type 0 where
  pub id : s.state.node.id ≡ r.state.node.id
  pub own : s.state.node.sequence_number ≡ r.state.node.sequence_number
  pub before : ℕ
  pub counted : last_of m.sender_id r.state.external_nodes ≡ some before
  pub last :
      (k : ℕ)
      → last_of k s.state.external_nodes
        ≡ (if m.sender_id == k then some (inc before) else last_of k r.state.external_nodes)
  pub out : s.out ≡ r.out ++ deliver m.sender_id (c_string m.text) ∷ []

pub external-last :
    (k : ℕ) (r : Run) (e : ExternalNode)
    → external k r ≡ ok e
    → last_of k r.state.external_nodes ≡ some e.last_sequence_number
unfolding external
external-last k r e h = ground arith

last_of-counted :
    (i k : ℕ) (e : ExternalNode) (es : Map ExternalNode)
    → last_of k (insert i (last_sequence_number_increment e) es)
      ≡ (if i == k then some (inc e.last_sequence_number) else last_of k es)
unfolding last_sequence_number_increment
last_of-counted i k e es = ground (arith, lookup-insert i k (last_sequence_number_increment e) es)

pub multicast_deliver-Delivers :
    (m : Message) (r s : Run)
    → (m.sender_id == r.state.node.id) ≡ false
    → multicast_deliver m r ≡ ok s
    → Delivers m r s
unfolding multicast_deliver count_delivery emit last_sequence_number_increment
multicast_deliver-Delivers m r s f h =
    let (r₁, p₁, q₁) = >>=-eq-ok (count_delivery m.sender_id r) _ h in
    let (e, p₂, q₂) = >>=-eq-ok (external m.sender_id r) _ (rw f at p₁) in
    subst (λ x. Delivers m r x) (ok-injective q₁)
      (subst (λ x. Delivers m r (emit (deliver m.sender_id (c_string m.text)) x)) (ok-injective q₂)
        (record {
          id = refl;
          own = refl;
          before = e.last_sequence_number;
          counted = external-last m.sender_id r e p₂;
          last = λ k. last_of-counted m.sender_id k e r.state.external_nodes;
          out = refl;
        }))

pub Delivers-IsCounted :
    (m : Message) (r s : Run)
    → (m.sender_id == r.state.node.id) ≡ false
    → Delivers m r s
    → IsCounted r
    → IsCounted s
unfolding inc
Delivers-IsCounted m r s f d c = record {
  unlisted = rw d.id (d.last r.state.node.id ∙ rw f c.unlisted);
  own =
      rw
        (
          d.id,
          d.out,
          d.own,
          deliveries-append r.state.node.id r.out (deliver m.sender_id (c_string m.text) ∷ []),
        )
        (rw f (omega (arith, c.own)));
  others = λ k.
      rw (d.last k, d.out, deliveries-append k r.out (deliver m.sender_id (c_string m.text) ∷ []))
        (elim (Bool-cases (m.sender_id == k)) [
          | inl same ↦ rw same (
              omega (
                arith,
                rw (==→eq m.sender_id k same) at
                    (Counts-eq _ _ d.before d.counted (c.others m.sender_id)),
              ))
          | inr other ↦ rw (other, add-zero) (c.others k)
        ]);
}
