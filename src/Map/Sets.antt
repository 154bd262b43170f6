-- ===== src/Map/Sets.antt =====
-- Sets whose elements ascend, and how insertion keeps them so.
use ece.Prelude.{ℕ, ◌≡◌, refl, sym, ◌∙◌, true, [], ◌∷◌, ◌++◌, append_assoc, append-nil, arith}
use ece.Int32.{IsInt, slt, slt_total, slt_trans, slt_asymm, slt-ne}
use ece.Map.{IntSet, add, add_all}

abbrev pub IsAbove : ℕ → IntSet → Type 0
IsAbove k [] = Unit
IsAbove k (j ∷ s) = (slt k j ≡ true) × IsAbove k s

-- The elements are ints and ascend.
abbrev pub IsSorted : IntSet → Type 0
IsSorted [] = Unit
IsSorted (k ∷ s) = IsInt k × IsAbove k s × IsSorted s

abbrev IsBelow : ℕ → IntSet → Type 0
IsBelow k [] = Unit
IsBelow k (j ∷ s) = (slt j k ≡ true) × IsBelow k s

abbrev AllBelow : IntSet → IntSet → Type 0
AllBelow s [] = Unit
AllBelow s (k ∷ r) = IsBelow k s × AllBelow s r

IsAbove-trans : (k j : ℕ) (s : IntSet) → slt k j ≡ true → IsAbove j s → IsAbove k s
IsAbove-trans k j [] h a = tt
IsAbove-trans k j (i ∷ s) h a = (slt_trans k j i h a.0, IsAbove-trans k j s h a.1)

add-IsAbove : (i k : ℕ) (s : IntSet) → slt i k ≡ true → IsAbove i s → IsAbove i (add k s)
unfolding add
add-IsAbove i k [] h a = (h, tt)
add-IsAbove i k (j ∷ s) h a = ground (arith, add-IsAbove i k s h a.1)

pub add-IsSorted : (k : ℕ) (s : IntSet) → IsInt k → IsSorted s → IsSorted (add k s)
unfolding add
add-IsSorted k [] i h = (i, tt, tt)
add-IsSorted k (j ∷ s) i h =
    ground (arith, add-IsSorted k s i h.2, add-IsAbove j k s, IsAbove-trans k j s, slt_total j k)

pub add_all-IsSorted : (r s : IntSet) → IsSorted r → IsSorted s → IsSorted (add_all r s)
unfolding add_all
add_all-IsSorted [] s h k = k
add_all-IsSorted (i ∷ r) s h k = add_all-IsSorted r (add i s) h.2 (add-IsSorted i s h.0 k)

add-append_last : (k : ℕ) (s : IntSet) → IsBelow k s → add k s ≡ s ++ k ∷ []
unfolding add
add-append_last k [] h = refl
add-append_last k (j ∷ s) h = ground (arith, add-append_last k s h.1, slt-ne j k, slt_asymm j k)

IsBelow-append : (k j : ℕ) (s : IntSet) → slt j k ≡ true → IsBelow k s → IsBelow k (s ++ j ∷ [])
IsBelow-append k j [] h b = (h, tt)
IsBelow-append k j (i ∷ s) h b = (b.0, IsBelow-append k j s h b.1)

AllBelow-append : (k : ℕ) (s r : IntSet) → AllBelow s r → IsAbove k r → AllBelow (s ++ k ∷ []) r
AllBelow-append k s [] b a = tt
AllBelow-append k s (j ∷ r) b a = (IsBelow-append j k s a.0 b.0, AllBelow-append k s r b.1 a.1)

add_all-append : (r s : IntSet) → IsSorted r → AllBelow s r → add_all r s ≡ s ++ r
unfolding add_all
add_all-append [] s h b = sym (append-nil s)
add_all-append (k ∷ r) s h b =
    rw (add-append_last k s b.0) (
      add_all-append r (s ++ k ∷ []) h.2 (AllBelow-append k s r b.1 h.1)
      ∙ append_assoc s (k ∷ []) r)

AllBelow-nil : (r : IntSet) → AllBelow [] r
AllBelow-nil [] = tt
AllBelow-nil (k ∷ r) = (tt, AllBelow-nil r)

-- Ids inserted in ascending order into an empty set give the set of just these ids.
pub add_all-nil : (r : IntSet) → IsSorted r → add_all r [] ≡ r
add_all-nil r h = add_all-append r [] h (AllBelow-nil r)
