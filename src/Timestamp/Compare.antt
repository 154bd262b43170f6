-- ===== src/Timestamp/Compare.antt =====
-- `Timestamp::compare` against the order on vectors, entry by entry.
use ece.Prelude.{
  ℕ, suc, ◌+◌, ◌≡◌, ◌∙◌, refl, sym, ap, Bool, true, false, ◌&&◌, ◌||◌, List, [], ◌∷◌, arith, length,
  ltb,
}
use ece.Int32.{slt, slt-ne, slt_asymm, not_slt_trans, slt_not_slt_trans}
use ece.Map.{Map, keys, get_or, lookup, touch, get_or-touch}
use ece.Map.Order.{IsSorted, IsAbove}
use ece.Timestamp.{
  Timestamp, CausalityRelation, before, concurrent, after, verdict, compare_loop, compare,
}

-- Some entry of the map is below, or above, its entry in the other map.
abbrev pub some_less : Map ℕ → Map ℕ → Bool
some_less [] t = false
some_less ((k, v) ∷ m) t = slt v (get_or k 0 t) || some_less m t

abbrev pub some_greater : Map ℕ → Map ℕ → Bool
some_greater [] t = false
some_greater ((k, v) ∷ m) t = slt (get_or k 0 t) v || some_greater m t

abbrev pub relation : Bool → Bool → CausalityRelation
relation true true = concurrent
relation true false = before
relation false true = after
relation false false = concurrent

some_less-touch : (m : Map ℕ) (k : ℕ) (t : Map ℕ) → some_less m (touch k 0 t) ≡ some_less m t
some_less-touch [] k t = refl
some_less-touch ((j, v) ∷ m) k t = rw (get_or-touch k j 0 t, some_less-touch m k t)

some_greater-touch :
    (m : Map ℕ) (k : ℕ) (t : Map ℕ) → some_greater m (touch k 0 t) ≡ some_greater m t
some_greater-touch [] k t = refl
some_greater-touch ((j, v) ∷ m) k t = rw (get_or-touch k j 0 t, some_greater-touch m k t)

-- The loop leaves early only where both counts would be positive.
compare_loop_lem :
    (m : Map ℕ) (less greater : ℕ) (t : Map ℕ)
    → (ltb 0 less && ltb 0 greater) ≡ false
    → (compare_loop m less greater t).0
      ≡ relation (ltb 0 less || some_less m t) (ltb 0 greater || some_greater m t)
unfolding compare_loop verdict
compare_loop_lem [] less greater t h = ground arith
compare_loop_lem ((k, v) ∷ m) less greater t h = ground (
  arith,
  slt_asymm v (get_or k 0 t),
  some_less-touch m k t,
  some_greater-touch m k t,
  compare_loop_lem m (less + 1) greater (touch k 0 t),
  compare_loop_lem m less (greater + 1) (touch k 0 t),
  compare_loop_lem m less greater (touch k 0 t),
)

-- `compare` answers by two questions: is some entry of the first timestamp below its entry in the
-- second, and is some entry above it, where an entry that the second does not have is 0.
pub compare-relation :
    (a t : Timestamp)
    → (compare a t).0
      ≡ relation (some_less a.timestamp t.timestamp) (some_greater a.timestamp t.timestamp)
unfolding compare
compare-relation a t = compare_loop_lem a.timestamp 0 0 t.timestamp refl

-- The values of a map, and the two questions on lists of values.
abbrev values : Map ℕ → List ℕ
values [] = []
values ((k, v) ∷ m) = v ∷ values m

abbrev less_in : List ℕ → List ℕ → Bool
less_in [] ys = false
less_in (x ∷ xs) [] = false
less_in (x ∷ xs) (y ∷ ys) = slt x y || less_in xs ys

module _ (k w : ℕ) (t : Map ℕ) where
  get_or-later : (j : ℕ) → slt k j ≡ true → get_or j 0 ((k, w) ∷ t) ≡ get_or j 0 t
  unfolding lookup
  get_or-later j h = ground (arith, slt-ne k j h)

  some_less-later : (m : Map ℕ) → IsAbove k m → some_less m ((k, w) ∷ t) ≡ some_less m t
  some_less-later [] h = refl
  some_less-later ((j, v) ∷ m) h = rw (get_or-later j h.0, some_less-later m h.1)

  some_greater-later : (m : Map ℕ) → IsAbove k m → some_greater m ((k, w) ∷ t) ≡ some_greater m t
  some_greater-later [] h = refl
  some_greater-later ((j, v) ∷ m) h = rw (get_or-later j h.0, some_greater-later m h.1)

tail-injective : {x y : ℕ} {xs ys : List ℕ} → ◌≡◌ {A = List ℕ} (x ∷ xs) (y ∷ ys) → xs ≡ ys
tail-injective e = cc

head-injective : {x y : ℕ} {xs ys : List ℕ} → ◌≡◌ {A = List ℕ} (x ∷ xs) (y ∷ ys) → x ≡ y
head-injective e = cc

some_less-values :
    (m t : Map ℕ) → IsSorted m → keys m ≡ keys t → some_less m t ≡ less_in (values m) (values t)
unfolding lookup
some_less-values [] t s e = refl
some_less-values ((k, v) ∷ m) [] s e = cc
some_less-values ((k, v) ∷ m) ((j, w) ∷ t) s e = ground (
  arith,
  head-injective e,
  some_less-later k w t m s.1,
  some_less-values m t s.2 (tail-injective e),
)

some_greater-values :
    (m t : Map ℕ) → IsSorted m → keys m ≡ keys t → some_greater m t ≡ less_in (values t) (values m)
unfolding lookup
some_greater-values [] [] s e = refl
some_greater-values [] ((j, w) ∷ t) s e = cc
some_greater-values ((k, v) ∷ m) [] s e = cc
some_greater-values ((k, v) ∷ m) ((j, w) ∷ t) s e = ground (
  arith,
  head-injective e,
  some_greater-later k w t m s.1,
  some_greater-values m t s.2 (tail-injective e),
)

abbrev pub flip : CausalityRelation → CausalityRelation
flip before = after
flip concurrent = concurrent
flip after = before

flip-relation : (x y : Bool) → relation y x ≡ flip (relation x y)
flip-relation x y = ground arith

-- Two timestamps over the same processes, as all timestamps of a group are.
pub record IsSameGroup (a t : Timestamp) : Type 0 where
  pub sorted : IsSorted a.timestamp
  pub same_keys : keys a.timestamp ≡ keys t.timestamp

IsAbove-keys : (k : ℕ) (m t : Map ℕ) → keys m ≡ keys t → IsAbove k m → IsAbove k t
IsAbove-keys k m [] e a = tt
IsAbove-keys k [] ((j, w) ∷ t) e a = cc
IsAbove-keys k ((i, v) ∷ m) ((j, w) ∷ t) e a =
    (rw (head-injective e) at a.0, IsAbove-keys k m t (tail-injective e) a.1)

IsSorted-keys : (m t : Map ℕ) → keys m ≡ keys t → IsSorted m → IsSorted t
IsSorted-keys m [] e s = tt
IsSorted-keys [] ((j, w) ∷ t) e s = cc
IsSorted-keys ((i, v) ∷ m) ((j, w) ∷ t) e s = (
  rw (head-injective e) at s.0,
  rw (head-injective e) at (IsAbove-keys i m t (tail-injective e) s.1),
  IsSorted-keys m t (tail-injective e) s.2,
)

-- Over one group of processes, comparing the other way round gives the opposite answer.
pub compare-flip : (a t : Timestamp) → IsSameGroup a t → (compare t a).0 ≡ flip (compare a t).0
compare-flip a t g =
    rw
      (
        compare-relation t a,
        compare-relation a t,
        some_less-values a.timestamp t.timestamp g.sorted g.same_keys,
        some_greater-values a.timestamp t.timestamp g.sorted g.same_keys,
        some_less-values t.timestamp a.timestamp (IsSorted-keys _ _ g.same_keys g.sorted)
            (sym g.same_keys),
        some_greater-values t.timestamp a.timestamp (IsSorted-keys _ _ g.same_keys g.sorted)
            (sym g.same_keys),
      )
      (flip-relation _ _)

not_less_trans :
    (xs ys zs : List ℕ)
    → length xs ≡ length ys
    → less_in ys xs ≡ false
    → less_in zs ys ≡ false
    → less_in zs xs ≡ false
not_less_trans xs ys [] n h k = refl
not_less_trans [] ys (z ∷ zs) n h k = refl
not_less_trans (x ∷ xs) [] (z ∷ zs) n h k = absurd (omega arith)
not_less_trans (x ∷ xs) (y ∷ ys) (z ∷ zs) n h k =
    ground (arith, not_slt_trans x y z, not_less_trans xs ys zs)

less_trans :
    (xs ys zs : List ℕ)
    → length ys ≡ length zs
    → less_in xs ys ≡ true
    → less_in ys xs ≡ false
    → less_in zs ys ≡ false
    → less_in xs zs ≡ true
less_trans [] ys zs n h l k = h
less_trans (x ∷ xs) [] zs n h l k = cc
less_trans (x ∷ xs) (y ∷ ys) [] n h l k = absurd (omega arith)
less_trans (x ∷ xs) (y ∷ ys) (z ∷ zs) n h l k =
    ground (arith, slt_not_slt_trans x y z, less_trans xs ys zs)

length-values : (m t : Map ℕ) → keys m ≡ keys t → length (values m) ≡ length (values t)
length-values [] [] e = refl
length-values [] (b ∷ t) e = cc
length-values (a ∷ m) [] e = cc
length-values ((i, v) ∷ m) ((j, w) ∷ t) e = ap suc (length-values m t (tail-injective e))

relation-before : (x y : Bool) → relation x y ≡ before → (x ≡ true) × (y ≡ false)
relation-before true false e = (refl, refl)
relation-before true true e = cc
relation-before false true e = cc
relation-before false false e = cc

-- What the answer `before` says of the values.
before-values :
    (a t : Timestamp)
    → IsSameGroup a t
    → (compare a t).0 ≡ before
    → (less_in (values a.timestamp) (values t.timestamp) ≡ true)
      × (less_in (values t.timestamp) (values a.timestamp) ≡ false)
before-values a t g e = relation-before _ _ (
    rw
      (
        compare-relation a t,
        some_less-values a.timestamp t.timestamp g.sorted g.same_keys,
        some_greater-values a.timestamp t.timestamp g.sorted g.same_keys,
      )
      at e)

-- Over one group of processes, `before` is transitive.
pub before_trans :
    (a b c : Timestamp)
    → IsSameGroup a b
    → IsSameGroup b c
    → (compare a b).0 ≡ before
    → (compare b c).0 ≡ before
    → (compare a c).0 ≡ before
before_trans a b c g h p q =
    let (ab, ba) = before-values a b g p in
    let (bc, cb) = before-values b c h q in
    let same : keys a.timestamp ≡ keys c.timestamp = g.same_keys ∙ h.same_keys in
    rw (
      compare-relation a c,
      some_less-values a.timestamp c.timestamp g.sorted same,
      some_greater-values a.timestamp c.timestamp g.sorted same,
      less_trans _ _ _ (length-values _ _ h.same_keys) ab ba cb,
      not_less_trans _ _ _ (length-values _ _ g.same_keys) ba cb,
    )
