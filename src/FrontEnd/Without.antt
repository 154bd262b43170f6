-- ===== src/FrontEnd/Without.antt =====
-- What the leader's calls do after it has removed a machine everywhere.
use ece.Prelude.{
  ℕ, zero, suc, ◌+◌, ◌<◌, ◌≡◌, refl, sym, ap, ◌∙◌, true, false, inl, inr, Option, none, some, [],
  arith, ◌==◌, ==_self, Bool-cases, ok,
}
use ece.Map.{lookup, insert, lookup-insert}
use ece.Machines.{
  find, Text, Machine, Store, not_found, Reply, done, throws, queue_of, set_queue, state_exists,
  enqueue_write, remove,
}
use ece.Machines.Tables.{same_text_self, remove-unmakes, done-injective}
use ece.Placement.{Stores}
use ece.Placement.Least.{has_in, holders}
use ece.Reading.{
  no_choice, consider_loop, choose_reader, remove_reply, remove_at, remove_loop, after_own,
  remove_all,
}
use ece.Reading.Removal.{IsGone, remove_all-IsGone}
use ece.Writing.{lead, apply_all}
use ece.Copying.{has_write, chosen, prepare_get_state}
use ece.Copying.Missing.{consider_loop-count, count_if-touched}

module _ (machine : Machine) (name : Text) (n id : ℕ) where
  reply-other :
      (i k : ℕ) (c : Stores machine) (r : Reply (Store machine))
      → (i == k) ≡ false
      → lookup k (remove_reply machine name i c r) ≡ lookup k c
  unfolding remove_reply
  reply-other i k c (done t) h = lookup-insert i k t c ∙ rw h refl
  reply-other i k c (throws e) h = refl

  remove_at-other :
      (i k : ℕ) (c : Stores machine) (o : Option (Store machine))
      → (i == k) ≡ false
      → lookup k (remove_at machine name i c o) ≡ lookup k c
  unfolding remove_at
  remove_at-other i k c none h = refl
  remove_at-other i k c (some s) h = reply-other i k c (remove machine name s) h

  -- The loop leaves the leader's own store alone.
  remove_loop-own :
      (rounds i : ℕ) (c : Stores machine)
      → lookup id (remove_loop machine name rounds i id c) ≡ lookup id c
  unfolding remove_loop
  remove_loop-own zero i c = refl
  remove_loop-own (suc rounds) i c = elim (Bool-cases (i == id)) [
    | inl own ↦ rw own (remove_loop-own rounds (i + 1) c)
    | inr other ↦ rw other (
        remove_loop-own rounds (i + 1) (remove_at machine name i c (lookup i c))
        ∙ remove_at-other i id c (lookup i c) other)
  ]

  -- After a removal: nobody has the machine, and the leader has no request for it.
  pub record Without (c : Stores machine) : Type 0 where
    pub own : Store machine
    pub leads : lookup id c ≡ some own
    pub queue : queue_of machine name own ≡ []
    pub lacks : state_exists machine name own ≡ false
    pub nobody : holders machine name n 0 c ≡ 0

  holders-none :
      (rounds i : ℕ) (c : Stores machine)
      → ((k : ℕ) → k < i + rounds → IsGone machine name k c)
      → holders machine name rounds i c ≡ 0
  holders-none zero i c h = refl
  holders-none (suc rounds) i c h =
      rw (h i (omega arith))
        (omega (arith, holders-none rounds (i + 1) c (λ k l. h k (omega arith))))

  pub remove_all-Without :
      (s : Store machine) (c d : Stores machine)
      → remove_all machine name n id s c ≡ done d
      → Without d
  remove_all-Without s c d h = go (remove machine name s) refl
    where
      lost : (t : Store machine) → find name t.machines ≡ none → state_exists machine name t ≡ false
      lost t e = unfold state_exists in rw e refl

      ends :
          (r : Reply (Store machine))
          → remove machine name s ≡ r
          → after_own machine name n id c r ≡ done d
      ends r e = rw (sym e) (unfold remove_all in h)

      go : (r : Reply (Store machine)) → remove machine name s ≡ r → Without d
      go (throws e) p = absurd (unfold after_own in cc (ends (throws e) p))
      go (done t) p =
          let (gone, queue) = remove-unmakes machine name name s t p in
          let e : remove_loop machine name n 0 id (insert id t c) ≡ d =
            done-injective (unfold after_own in ends (done t) p) in
          record {
            own = t;
            leads =
                ap (lookup id) (sym e)
                ∙ remove_loop-own n 0 (insert id t c)
                ∙ lookup-insert id id t c
                ∙ rw (==_self id) refl;
            queue = rw (queue, same_text_self name) refl;
            lacks = lost t (gone ∙ rw (same_text_self name) refl);
            nobody =
                holders-none n 0 d
                  (λ k l. remove_all-IsGone machine name n id k s c d (omega arith) h);
          }

  pub apply_all-throws :
      (operation : Text) (c : Stores machine)
      → Without c
      → apply_all machine name operation n id c (lookup id c) ≡ ok (c, throws not_found)
  unfolding apply_all lead enqueue_write
  apply_all-throws operation c w = rw (w.leads, w.lacks) refl

  pub prepare-throws :
      (garbage client : ℕ) (c : Stores machine)
      → Without c
      → (d : Stores machine) × (prepare_get_state machine n id name garbage client c (lookup id c)
          ≡ ok (d, throws not_found))
  unfolding prepare_get_state chosen choose_reader
  prepare-throws garbage client c w =
      let t = set_queue machine name (queue_of machine name w.own) w.own in
      let d = insert id t c in
      let no_write : has_write (queue_of machine name w.own) ≡ false = rw w.queue refl in
      let same : state_exists machine name t ≡ state_exists machine name w.own =
        unfold state_exists in refl in
      let touched =
        count_if-touched machine name (has_in machine name) n 0 id w.own t c w.leads same in
      let counted = (consider_loop-count machine name n 0 d (no_choice garbage)).0 in
      let v = consider_loop machine name n 0 d (no_choice garbage) in
      let no_one : (v.count == 0) ≡ true = ground (arith, counted, touched, w.nobody) in
      (d, rw (w.leads, no_write, no_one) refl)
