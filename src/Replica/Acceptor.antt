-- ===== src/Replica/Acceptor.antt =====
-- The acceptor's side of an election: what a promise binds.
use ece.Prelude.{ℕ, ◌≡◌, true, false, List, [], ◌∷◌, arith}
use ece.Int32.{slt, sle, sle_refl, sle_trans}
use ece.Replica.{Replica, prepare, accept, inform}

-- The calls that a replica gets from a proposer.
pub data Request : Type 0 where
  prepares : ℕ → Request
  accepts : ℕ → ℕ → Request
  informs : ℕ → Request

abbrev pub serve : List Request → Replica → Replica
serve [] r = r
serve (prepares n ∷ s) r = serve s (prepare n r).0
serve (accepts n value ∷ s) r = serve s (accept n value r).0
serve (informs value ∷ s) r = serve s (inform value r)

prepare_raises :
    (n : ℕ) (r : Replica)
    → (sle r.highest_proposal_number (prepare n r).0.highest_proposal_number ≡ true)
      × (sle n (prepare n r).0.highest_proposal_number ≡ true)
unfolding prepare slt sle
prepare_raises n r = ground arith

accept_keeps :
    (n value : ℕ) (r : Replica)
    → (accept n value r).0.highest_proposal_number ≡ r.highest_proposal_number
unfolding accept
accept_keeps n value r = ground arith

serve_raises :
    (s : List Request) (r : Replica)
    → sle r.highest_proposal_number (serve s r).highest_proposal_number ≡ true
unfolding inform
serve_raises [] r = sle_refl _
serve_raises (prepares n ∷ s) r =
    sle_trans r.highest_proposal_number (prepare n r).0.highest_proposal_number _
      (prepare_raises n r).0 (serve_raises s (prepare n r).0)
serve_raises (accepts n value ∷ s) r =
    rw (accept_keeps n value r) at (serve_raises s (accept n value r).0)
serve_raises (informs value ∷ s) r = serve_raises s (inform value r)

refused :
    (m value : ℕ) (r : Replica)
    → sle m r.highest_proposal_number ≡ true
    → (accept m value r).1 ≡ false
unfolding accept slt sle
refused m value r h = ground arith

-- A promise binds: once a replica was asked to prepare n, it refuses every proposal numbered n or
-- less, whatever calls of the three kinds it answered in between.
pub accept-serve :
    (n m value : ℕ) (s : List Request) (r : Replica)
    → sle m n ≡ true
    → (accept m value (serve s (prepare n r).0)).1 ≡ false
accept-serve n m value s r h = refused m value _ (
    sle_trans m n _ h (
      sle_trans n (prepare n r).0.highest_proposal_number _ (prepare_raises n r).1
        (serve_raises s (prepare n r).0)))

-- An accepted proposal does not bind: a replica that accepted n accepts a smaller m after it, as
-- long as m is above what it promised, and takes the value of m in place of that of n.
pub accept-accept :
    (m n v w : ℕ) (r : Replica)
    → slt r.highest_proposal_number m ≡ true
    → slt m n ≡ true
    → ((accept n v r).1 ≡ true)
      × ((accept m w (accept n v r).0).1 ≡ true)
      × ((accept m w (accept n v r).0).0.accepted_proposal_value ≡ w)
unfolding accept slt
accept-accept m n v w r h k = ground arith
