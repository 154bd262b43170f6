-- ===== src/Reading/Removal.antt =====
-- The leader's `remove` removes the machine from every replica that runs.
use mathlib.Core.Path.{subst}
use ece.Prelude.{
  ℕ, zero, suc, ◌+◌, ◌<◌, ◌≤◌, ◌≡◌, refl, false, Option, none, some, arith, ◌==◌, ==→eq, ==_self,
  Bool-cases, inl, inr,
}
use ece.Map.{lookup, insert, lookup-insert}
use ece.Machines.{ErrorType, Text, Machine, Store, Reply, done, throws, erase, state_exists, remove}
use ece.Machines.Tables.{done-injective, same_text_self, find-erase}
use ece.Placement.{Stores}
use ece.Placement.Least.{has_in}
use ece.Reading.{remove_reply, remove_at, remove_loop, after_own, remove_all}

module _ (machine : Machine) (name : Text) where
  -- The machine is not on replica k.
  abbrev pub IsGone : ℕ → Stores machine → Type 0
  IsGone k c = has_in machine name (lookup k c) ≡ false

  -- What a `remove` of one store gives back.
  data Removed (s : Store machine) : Reply (Store machine) → Type 0 where
    gone : (t : Store machine) → state_exists machine name t ≡ false → Removed s (done t)
    never : (e : ErrorType) → state_exists machine name s ≡ false → Removed s (throws e)

  erase-gone :
      (s t : Store machine)
      → t.machines ≡ erase name s.machines
      → state_exists machine name t ≡ false
  unfolding state_exists
  erase-gone s t e = rw (e, find-erase name name s.machines, same_text_self name) refl

  remove-Removed : (s : Store machine) → Removed s (remove machine name s)
  unfolding remove
  remove-Removed s = elim (Bool-cases (state_exists machine name s)) [
    | inl has ↦ rw has (gone _ (erase-gone s _ refl))
    | inr has_not ↦ rw has_not (never _ has_not)
  ]

  insert-IsGone :
      (i k : ℕ) (t : Store machine) (c : Stores machine)
      → state_exists machine name t ≡ false
      → IsGone k c
      → IsGone k (insert i t c)
  insert-IsGone i k t c h g = rw (lookup-insert i k t c) (ground arith)

  reply-IsGone :
      (i k : ℕ) (s : Store machine) (r : Reply (Store machine)) (c : Stores machine)
      → Removed s r
      → IsGone k c
      → IsGone k (remove_reply machine name i c r)
  unfolding remove_reply
  reply-IsGone i k s r c (gone t h) g = insert-IsGone i k t c h g
  reply-IsGone i k s r c (never e h) g = g

  remove_at-keeps :
      (i k : ℕ) (o : Option (Store machine)) (c : Stores machine)
      → IsGone k c
      → IsGone k (remove_at machine name i c o)
  unfolding remove_at
  remove_at-keeps i k none c g = g
  remove_at-keeps i k (some s) c g = reply-IsGone i k s _ c (remove-Removed s) g

  reply-clears :
      (i : ℕ) (s : Store machine) (r : Reply (Store machine)) (c : Stores machine)
      → lookup i c ≡ some s
      → Removed s r
      → IsGone i (remove_reply machine name i c r)
  unfolding remove_reply
  reply-clears i s r c e (gone t h) = rw (lookup-insert i i t c, ==_self i) h
  reply-clears i s r c e (never f h) = rw e h

  remove_at-clears :
      (i : ℕ) (o : Option (Store machine)) (c : Stores machine)
      → lookup i c ≡ o
      → IsGone i (remove_at machine name i c o)
  unfolding remove_at
  remove_at-clears i none c e = rw e refl
  remove_at-clears i (some s) c e = reply-clears i s _ c e (remove-Removed s)

  remove_loop-keeps :
      (rounds i id k : ℕ) (c : Stores machine)
      → IsGone k c
      → IsGone k (remove_loop machine name rounds i id c)
  unfolding remove_loop
  remove_loop-keeps zero i id k c g = g
  remove_loop-keeps (suc rounds) i id k c g =
      remove_loop-keeps rounds (i + 1) id k _ (elim (Bool-cases (i == id)) [
        | inl own ↦ rw own g
        | inr other ↦ rw other (remove_at-keeps i k (lookup i c) c g)
      ])

  remove_loop-clears :
      (rounds i id k : ℕ) (c : Stores machine)
      → i ≤ k
      → k < i + rounds
      → (k == id) ≡ false
      → IsGone k (remove_loop machine name rounds i id c)
  unfolding remove_loop
  remove_loop-clears zero i id k c a b f = absurd (omega arith)
  remove_loop-clears (suc rounds) i id k c a b f = elim (Bool-cases (i == k)) [
    | inl here ↦
        let other : (i == id) ≡ false = rw (==→eq i k here) f in
        let clear : IsGone k (remove_at machine name i c (lookup i c)) =
          subst (λ (j : ℕ). IsGone j (remove_at machine name i c (lookup i c))) (==→eq i k here)
            (remove_at-clears i (lookup i c) c refl) in
        rw other (remove_loop-keeps rounds (i + 1) id k _ clear)
    | inr later ↦ remove_loop-clears rounds (i + 1) id k _ (ground arith) (omega arith) f
  ]

  -- After a `remove` of the leader that returns, none of the n replicas has the machine.
  pub remove_all-IsGone :
      (n id k : ℕ) (s : Store machine) (c d : Stores machine)
      → k < n
      → remove_all machine name n id s c ≡ done d
      → IsGone k d
  unfolding remove_all after_own
  remove_all-IsGone n id k s c d below h = own (remove machine name s) (remove-Removed s) h
    where
      own :
          (r : Reply (Store machine))
          → Removed s r
          → after_own machine name n id c r ≡ done d
          → IsGone k d
      own r (gone t g) e = elim (Bool-cases (k == id)) [
        | inl same ↦
            let here : IsGone k (insert id t c) =
              rw (lookup-insert id k t c) (ground (arith, ==→eq k id same, g)) in
            subst (λ (x : Stores machine). IsGone k x) (done-injective e)
              (remove_loop-keeps n 0 id k _ here)
        | inr other ↦
            subst (λ (x : Stores machine). IsGone k x) (done-injective e)
              (remove_loop-clears n 0 id k _ (omega arith) (omega arith) other)
      ]
      own r (never f g) e = cc
