-- ===== src/State/Acks.antt =====
-- What the merge of an acknowledgement list does: no acknowledgement goes back.
use ece.Prelude.{ℕ, ◌≡◌, true, some, [], ◌∷◌, arith, ◌==◌, if◌then◌else◌}
use ece.Int32.{sle_refl, smax, sle, sle-smax_left, sle-smax_right, sle_trans}
use ece.Map.{Map, get_or, lookup, insert, lookup-insert}
use ece.State.{merge_acks}

get_or-insert :
    (k j v : ℕ) (m : Map ℕ) → get_or j 0 (insert k v m) ≡ (if k == j then v else get_or j 0 m)
get_or-insert k j v m = ground (arith, lookup-insert k j v m)

-- A merge never lowers what a process is known to have delivered.
pub merge_acks_mono :
    (list acks : Map ℕ) (k : ℕ) → sle (get_or k 0 acks) (get_or k 0 (merge_acks list acks)) ≡ true
unfolding merge_acks
merge_acks_mono [] acks k = sle_refl _
merge_acks_mono ((j, v) ∷ list) acks k = ground (
  arith,
  get_or-insert j k (smax (get_or j 0 acks) v) acks,
  sle-smax_left (get_or j 0 acks) v,
  merge_acks_mono list (insert j (smax (get_or j 0 acks) v) acks) k,
  sle_trans (get_or k 0 acks) (smax (get_or j 0 acks) v)
      (get_or k 0 (merge_acks list (insert j (smax (get_or j 0 acks) v) acks))),
)

-- After a merge a process is known to have delivered at least what the list says.
pub merge_acks-ge :
    (list acks : Map ℕ) (k v : ℕ)
    → lookup k list ≡ some v
    → sle v (get_or k 0 (merge_acks list acks)) ≡ true
unfolding merge_acks lookup
merge_acks-ge [] acks k v e = cc
merge_acks-ge ((j, w) ∷ list) acks k v e = ground (
  arith,
  get_or-insert j k (smax (get_or j 0 acks) w) acks,
  sle-smax_right (get_or j 0 acks) w,
  merge_acks-ge list (insert j (smax (get_or j 0 acks) w) acks) k v,
  merge_acks_mono list (insert j (smax (get_or j 0 acks) w) acks) k,
  sle_trans w (smax (get_or j 0 acks) w)
      (get_or k 0 (merge_acks list (insert j (smax (get_or j 0 acks) w) acks))),
)
