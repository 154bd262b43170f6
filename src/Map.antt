-- ===== src/Map.antt =====
-- `std::map<int, V>` and `std::set<int>`: the entries in ascending order of their keys, which is
-- the order that their iterators follow.
pub mod Order
pub mod Sets
use ece.Prelude.{
  ℕ, ◌≡◌, refl, ap, ◌≢◌, Bool, Option, none, some, List, [], ◌∷◌, map, true, false, arith, ◌==◌,
  ==_self, if◌then◌else◌, ◌||◌,
}
use ece.Int32.{slt}

abbrev pub Map {ℓ} : Type ℓ → Type ℓ
Map V = List (ℕ × V)

abbrev pub IntSet : Type 0
IntSet = List ℕ

abbrev pub or_default {ℓ} : {V : Type ℓ} → V → Option V → V
or_default d none = d
or_default d (some v) = v

abbrev pub or_else {ℓ} : {V : Type ℓ} → Option V → V → Option V
or_else none d = some d
or_else (some v) d = some v

module _ {ℓ} {V : Type ℓ} where
  unfoldable pub lookup : ℕ → Map V → Option V
  lookup k [] = none
  lookup k ((i, x) ∷ rest) = if i == k then some x else lookup k rest

  -- `m[k] = v`
  unfoldable pub insert : ℕ → V → Map V → Map V
  insert k v [] = (k, v) ∷ []
  insert k v ((j, w) ∷ m) =
      if j == k then (k, v) ∷ m else if slt k j then (k, v) ∷ (j, w) ∷ m else (j, w) ∷ insert k v m

  -- Insertion of each pair in turn.
  unfoldable pub insert_all : List (ℕ × V) → Map V → Map V
  insert_all [] m = m
  insert_all ((k, v) ∷ r) m = insert_all r (insert k v m)

  abbrev pub keys : Map V → List ℕ
  keys [] = []
  keys ((k, v) ∷ m) = k ∷ keys m

  pub lookup-insert :
      (new i : ℕ) (x : V) (m : Map V)
      → lookup i (insert new x m) ≡ (if new == i then some x else lookup i m)
  unfolding lookup insert
  lookup-insert new i x [] = refl
  lookup-insert new i x (entry ∷ m) = ground (arith, lookup-insert new i x m)

  -- `m[k]` as a value: the default where the key is missing.
  abbrev pub get_or : ℕ → V → Map V → V
  get_or k d m = or_default d (lookup k m)

  -- What `m[k]` does to the map: a missing key is inserted with the default value.
  unfoldable pub touch : ℕ → V → Map V → Map V
  touch k d m = insert k (or_default d (lookup k m)) m

  pub lookup-touch :
      (k j : ℕ) (d : V) (m : Map V)
      → lookup j (touch k d m) ≡ (if k == j then or_else (lookup j m) d else lookup j m)
  unfolding touch
  lookup-touch k j d m = ground (
    arith,
    lookup-insert k j (or_default d (lookup k m)) m,
    ap (λ (i : ℕ). lookup i m) {x = k} {y = j},
  )

  pub get_or-touch : (k j : ℕ) (d : V) (m : Map V) → get_or j d (touch k d m) ≡ get_or j d m
  get_or-touch k j d m = ground (arith, lookup-touch k j d m)

module _ where
  unfoldable pub member : ℕ → IntSet → Bool
  member k [] = false
  member k (j ∷ s) = j == k || member k s

  -- `s.insert(k)`
  unfoldable pub add : ℕ → IntSet → IntSet
  add k [] = k ∷ []
  add k (j ∷ s) = if j == k then j ∷ s else if slt k j then k ∷ j ∷ s else j ∷ add k s

  -- `s.insert(first, last)`
  unfoldable pub add_all : List ℕ → IntSet → IntSet
  add_all [] s = s
  add_all (k ∷ r) s = add_all r (add k s)

  pub member-add : (k j : ℕ) (s : IntSet) → member j (add k s) ≡ (k == j || member j s)
  unfolding member add
  member-add k j [] = refl
  member-add k j (i ∷ s) = ground (arith, member-add k j s)

  pub member-add_all :
      (r : List ℕ) (j : ℕ) (s : IntSet) → member j (add_all r s) ≡ (member j r || member j s)
  unfolding add_all member
  member-add_all [] j s = refl
  member-add_all (k ∷ r) j s = ground (arith, member-add_all r j (add k s), member-add k j s)
