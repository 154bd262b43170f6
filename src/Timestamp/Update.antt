-- ===== src/Timestamp/Update.antt =====
-- What `Timestamp::step` and `Timestamp::update` do to each counter.
use ece.Prelude.{
  ℕ, ◌+◌, ◌≡◌, refl, ap, Option, none, some, [], ◌∷◌, arith, ◌==◌, ◌∙◌, if◌then◌else◌,
}
use ece.Int32.{slt-ne, inc, sub, smax}
use ece.Map.{Map, keys, get_or, lookup, insert, lookup-insert, touch, get_or-touch}
use ece.Map.Order.{IsSorted, IsAbove}
use ece.Timestamp.{Timestamp, step, update_loop, update, compare_loop, compare}

-- A step increments the own counter, which counts from 0 if it is missing, and no other.
pub step_lem :
    (t : Timestamp) (k : ℕ)
    → lookup k (step t).timestamp
      ≡ (if t.own_id == k then some (inc (get_or t.own_id 0 t.timestamp)) else lookup k t.timestamp)
unfolding step
step_lem t k = lookup-insert t.own_id k _ t.timestamp

-- A counter after the merge, from its value and the other timestamp's.
abbrev pub merged : ℕ → ℕ → Option ℕ → ℕ → Option ℕ
merged own k none other = none
merged own k (some v) other = some (if own == k then v else smax v other)

-- An entry of the differences after the merge.
abbrev pub difference : Option ℕ → ℕ → Option ℕ → Option ℕ
difference none other old = old
difference (some v) other old = some (sub other v)

abbrev pub Merge : Type 0
Merge = Map ℕ × Map ℕ × Map ℕ

lookup_below : {V : Type 0} (k : ℕ) (m : Map V) → IsAbove k m → lookup k m ≡ none
unfolding lookup
lookup_below k [] a = refl
lookup_below k ((j, v) ∷ m) a = ground (arith, slt-ne k j, lookup_below k m)

module _ (own k : ℕ) where
  update_loop-lookup :
      (m diff t : Map ℕ)
      → lookup k (update_loop own m diff t).0 ≡ merged own k (lookup k m) (get_or k 0 t)
  unfolding update_loop lookup smax
  update_loop-lookup [] diff t = refl
  update_loop-lookup ((j, v) ∷ m) diff t = ground (
    arith,
    get_or-touch j k 0 t,
    update_loop-lookup m (insert j (sub (get_or j 0 t) v) diff) (touch j 0 t),
  )

  update_loop-diff :
      (m diff t : Map ℕ)
      → IsSorted m
      → lookup k (update_loop own m diff t).1
        ≡ difference (lookup k m) (get_or k 0 t) (lookup k diff)
  unfolding update_loop lookup
  update_loop-diff [] diff t s = refl
  update_loop-diff ((j, v) ∷ m) diff t s = ground (
    arith,
    get_or-touch j k 0 t,
    lookup_below j m s.1,
    lookup-insert j k (sub (get_or j 0 t) v) diff,
    update_loop-diff m (insert j (sub (get_or j 0 t) v) diff) (touch j 0 t) s.2,
  )

  update_loop-other : (m diff t : Map ℕ) → get_or k 0 (update_loop own m diff t).2 ≡ get_or k 0 t
  unfolding update_loop
  update_loop-other [] diff t = refl
  update_loop-other ((j, v) ∷ m) diff t =
      update_loop-other m (insert j (sub (get_or j 0 t) v) diff) (touch j 0 t)
      ∙ get_or-touch j k 0 t

-- After `update` every counter of the timestamp but its own is the larger of the two, a counter that
-- the other timestamp lacks counting as 0; the own counter stays, and no counter is added.
pub update-merged :
    (a t : Timestamp) (k : ℕ)
    → lookup k (update a t).0.timestamp
      ≡ merged a.own_id k (lookup k a.timestamp) (get_or k 0 t.timestamp)
unfolding update
update-merged a t k = update_loop-lookup a.own_id k a.timestamp a.diff t.timestamp

-- The deltas that `update` returns: for each counter of the timestamp the other value less the own
-- value before the merge; an older delta of another process stays.
pub update-difference :
    (a t : Timestamp) (k : ℕ)
    → IsSorted a.timestamp
    → lookup k (update a t).0.diff
      ≡ difference (lookup k a.timestamp) (get_or k 0 t.timestamp) (lookup k a.diff)
unfolding update
update-difference a t k s = update_loop-diff a.own_id k a.timestamp a.diff t.timestamp s

update_loop-keys : (own : ℕ) (m diff t : Map ℕ) → keys (update_loop own m diff t).0 ≡ keys m
unfolding update_loop
update_loop-keys own [] diff t = refl
update_loop-keys own ((k, v) ∷ m) diff t = ap (λ r. k ∷ r) (update_loop-keys own m _ _)

-- `update` leaves the processes and the owner of the timestamp alone.
pub update-keys :
    (a t : Timestamp)
    → (keys (update a t).0.timestamp ≡ keys a.timestamp) × ((update a t).0.own_id ≡ a.own_id)
unfolding update
update-keys a t = (update_loop-keys a.own_id a.timestamp a.diff t.timestamp, refl)

compare_loop-other :
    (m : Map ℕ) (less greater : ℕ) (t : Map ℕ) (k : ℕ)
    → get_or k 0 (compare_loop m less greater t).1 ≡ get_or k 0 t
unfolding compare_loop
compare_loop-other [] less greater t k = refl
compare_loop-other ((j, v) ∷ m) less greater t k = ground (
  arith,
  get_or-touch j k 0 t,
  compare_loop-other m (less + 1) greater (touch j 0 t) k,
  compare_loop-other m less (greater + 1) (touch j 0 t) k,
  compare_loop-other m less greater (touch j 0 t) k,
)

-- Neither `compare` nor `update` changes what the other timestamp says of any process, although
-- both insert into it.
pub other_same :
    (a t : Timestamp) (k : ℕ)
    → (get_or k 0 (compare a t).1.timestamp ≡ get_or k 0 t.timestamp)
      × (get_or k 0 (update a t).1.timestamp ≡ get_or k 0 t.timestamp)
unfolding compare update
other_same a t k = (
  compare_loop-other a.timestamp 0 0 t.timestamp k,
  update_loop-other a.own_id k a.timestamp a.diff t.timestamp,
)
