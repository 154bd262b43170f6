-- ===== src/Map/Order.antt =====
-- Maps and sets whose keys ascend, and how insertion keeps them so.
use ece.Prelude.{ℕ, ◌≡◌, refl, sym, ◌∙◌, true, [], ◌∷◌, ◌++◌, append_assoc, append-nil, arith}
use ece.Int32.{IsInt, slt_total, slt, slt_trans, slt_asymm, slt-ne}
use ece.Map.{Map, insert, insert_all}

abbrev pub IsAbove {ℓ} : {V : Type ℓ} → ℕ → Map V → Type 0
IsAbove k [] = Unit
IsAbove k ((j, v) ∷ m) = (slt k j ≡ true) × IsAbove k m

-- The keys are ints and ascend.
abbrev pub IsSorted {ℓ} : {V : Type ℓ} → Map V → Type 0
IsSorted [] = Unit
IsSorted ((k, v) ∷ m) = IsInt k × IsAbove k m × IsSorted m

-- Every key of the map is below `k`.
abbrev pub IsBelow {ℓ} : {V : Type ℓ} → ℕ → Map V → Type 0
IsBelow k [] = Unit
IsBelow k ((j, v) ∷ m) = (slt j k ≡ true) × IsBelow k m

module _ {ℓ} {V : Type ℓ} where
  pub IsAbove-trans : (k j : ℕ) (m : Map V) → slt k j ≡ true → IsAbove j m → IsAbove k m
  IsAbove-trans k j [] h a = tt
  IsAbove-trans k j ((i, v) ∷ m) h a = (slt_trans k j i h a.0, IsAbove-trans k j m h a.1)

  pub insert-IsAbove :
      (i k : ℕ) (v : V) (m : Map V) → slt i k ≡ true → IsAbove i m → IsAbove i (insert k v m)
  unfolding insert
  insert-IsAbove i k v [] h a = (h, tt)
  insert-IsAbove i k v ((j, w) ∷ m) h a = ground (arith, insert-IsAbove i k v m)

  insert-append_last : (k : ℕ) (v : V) (m : Map V) → IsBelow k m → insert k v m ≡ m ++ (k, v) ∷ []
  unfolding insert
  insert-append_last k v [] h = refl
  insert-append_last k v ((j, w) ∷ m) h =
      ground (arith, insert-append_last k v m, slt-ne j k, slt_asymm j k)

  IsBelow-append :
      (k j : ℕ) (v : V) (m : Map V) → slt j k ≡ true → IsBelow k m → IsBelow k (m ++ (j, v) ∷ [])
  IsBelow-append k j v [] h b = (h, tt)
  IsBelow-append k j v ((i, w) ∷ m) h b = (b.0, IsBelow-append k j v m h b.1)

  -- The keys of the first map are all below the keys of the second.
  abbrev AllBelow : Map V → Map V → Type 0
  AllBelow m [] = Unit
  AllBelow m ((k, v) ∷ r) = IsBelow k m × AllBelow m r

  AllBelow-append :
      (k : ℕ) (v : V) (m r : Map V) → AllBelow m r → IsAbove k r → AllBelow (m ++ (k, v) ∷ []) r
  AllBelow-append k v m [] b a = tt
  AllBelow-append k v m ((j, w) ∷ r) b a =
      (IsBelow-append j k v m a.0 b.0, AllBelow-append k v m r b.1 a.1)

  insert_all-append : (r m : Map V) → IsSorted r → AllBelow m r → insert_all r m ≡ m ++ r
  unfolding insert_all
  insert_all-append [] m s b = sym (append-nil m)
  insert_all-append ((k, v) ∷ r) m s b = rw (insert-append_last k v m b.0) (
      insert_all-append r (m ++ (k, v) ∷ []) s.2 (AllBelow-append k v m r b.1 s.1)
      ∙ append_assoc m ((k, v) ∷ []) r)

  AllBelow-nil : (r : Map V) → AllBelow [] r
  AllBelow-nil [] = tt
  AllBelow-nil ((k, v) ∷ r) = (tt, AllBelow-nil r)

  -- Pairs inserted in ascending order into an empty map give the map of just these pairs.
  pub insert_all-nil : (r : Map V) → IsSorted r → insert_all r [] ≡ r
  insert_all-nil r s = insert_all-append r [] s (AllBelow-nil r)

  pub insert-IsSorted : (k : ℕ) (v : V) (m : Map V) → IsInt k → IsSorted m → IsSorted (insert k v m)
  unfolding insert
  insert-IsSorted k v [] i s = (i, tt, tt)
  insert-IsSorted k v ((j, w) ∷ m) i s = ground (
    arith,
    insert-IsSorted k v m i s.2,
    insert-IsAbove j k v m,
    IsAbove-trans k j m,
    slt_total j k,
  )
