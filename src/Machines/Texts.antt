-- ===== src/Machines/Texts.antt =====
-- Lists of the texts of writes, with the one of a call that stops waiting.
use mathlib.Core.Path.{subst}
use ece.Prelude.{
  ◌≡◌, refl, ◌∙◌, false, List, [], ◌∷◌, ◌++◌, All, arith, if◌then◌else◌, Bool-cases, inl, inr,
}
use ece.Machines.{Text, same_text, Request, erase_read}
use ece.Machines.Tables.{same_text-eq}
use ece.Machines.Turns.{Event, begins, waits, take_one}

-- The texts of the writes.
abbrev pub writes_in : List Request → List Text
writes_in [] = []
writes_in (r ∷ q) = if r.is_write then r.text ∷ writes_in q else writes_in q

abbrev pub submitted : List Event → List Text
submitted [] = []
submitted (begins operation ∷ es) = operation ∷ submitted es
submitted (_ ∷ es) = submitted es

-- The text is not among those.
abbrev pub IsAbsent : Text → List Text → Type 0
IsAbsent x l = All (λ (t : Text). same_text t x ≡ false) l

abbrev pub AreDistinct : List Text → Type 0
AreDistinct [] = Unit
AreDistinct (t ∷ l) = IsAbsent t l × AreDistinct l

-- Each call of `apply` has another text than the writes before it.
abbrev pub AreNew : List Text → List Event → Type 0
AreNew all [] = Unit
AreNew all (begins operation ∷ es) = IsAbsent operation all × AreNew (all ++ operation ∷ []) es
AreNew all (_ ∷ es) = AreNew all es

pub same_text_sym : (s t : Text) → same_text s t ≡ same_text t s
unfolding same_text
same_text_sym [] [] = refl
same_text_sym [] (d ∷ t) = refl
same_text_sym (c ∷ s) [] = refl
same_text_sym (c ∷ s) (d ∷ t) = ground (arith, same_text_sym s t)

pub IsAbsent-append :
    (x : Text) (l k : List Text) → IsAbsent x l → IsAbsent x k → IsAbsent x (l ++ k)
IsAbsent-append x [] k a b = b
IsAbsent-append x (t ∷ l) k (h, a) b = (h, IsAbsent-append x l k a b)

pub IsAbsent-after : (x : Text) (l k : List Text) → IsAbsent x (l ++ k) → IsAbsent x k
IsAbsent-after x [] k a = a
IsAbsent-after x (t ∷ l) k (h, a) = IsAbsent-after x l k a

pub IsAbsent-before : (x : Text) (l k : List Text) → IsAbsent x (l ++ k) → IsAbsent x l
IsAbsent-before x [] k a = tt
IsAbsent-before x (t ∷ l) k (h, a) = (h, IsAbsent-before x l k a)

pub AreDistinct-append :
    (x : Text) (l : List Text) → AreDistinct l → IsAbsent x l → AreDistinct (l ++ x ∷ [])
AreDistinct-append x [] d a = (tt, tt)
AreDistinct-append x (t ∷ l) (b, d) (h, a) =
    (IsAbsent-append t l (x ∷ []) b (same_text_sym x t ∙ h, tt), AreDistinct-append x l d a)

pub take_one-IsAbsent : (x y : Text) (l : List Text) → IsAbsent x l → IsAbsent x (take_one y l)
unfolding take_one
take_one-IsAbsent x y [] a = tt
take_one-IsAbsent x y (t ∷ l) (h, a) = elim (Bool-cases (same_text t y)) [
  | inl same ↦ rw same a
  | inr other ↦ rw other (h, take_one-IsAbsent x y l a)
]

pub take_one-AreDistinct : (y : Text) (l : List Text) → AreDistinct l → AreDistinct (take_one y l)
unfolding take_one
take_one-AreDistinct y [] d = tt
take_one-AreDistinct y (t ∷ l) (a, d) = elim (Bool-cases (same_text t y)) [
  | inl same ↦ rw same d
  | inr other ↦ rw other (take_one-IsAbsent t y l a, take_one-AreDistinct y l d)
]

pub take_one-gone : (y : Text) (l : List Text) → AreDistinct l → IsAbsent y (take_one y l)
unfolding take_one
take_one-gone y [] d = tt
take_one-gone y (t ∷ l) (a, d) = elim (Bool-cases (same_text t y)) [
  | inl same ↦ rw same (subst (λ (x : Text). IsAbsent x l) (same_text-eq t y same) a)
  | inr other ↦ rw other (other, take_one-gone y l d)
]

pub waits-IsAbsent : (x : Text) (l : List Text) → IsAbsent x l → waits x l ≡ false
unfolding waits
waits-IsAbsent x [] a = refl
waits-IsAbsent x (t ∷ l) (h, a) = rw (h, waits-IsAbsent x l a) refl

pub writes_in-append : (q p : List Request) → writes_in (q ++ p) ≡ writes_in q ++ writes_in p
writes_in-append [] p = refl
writes_in-append (r ∷ q) p = ground (arith, writes_in-append q p)

pub writes_in-erase_read : (t : Text) (q : List Request) → writes_in (erase_read t q) ≡ writes_in q
unfolding erase_read
writes_in-erase_read t [] = refl
writes_in-erase_read t (r ∷ q) = ground (arith, writes_in-erase_read t q)
