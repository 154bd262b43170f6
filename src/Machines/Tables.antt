-- ===== src/Machines/Tables.antt =====
-- Tables by name, and the machines of a replica after each call.
use ece.Prelude.{
  ◌≡◌, refl, sym, ap, ◌∙◌, true, ◌||◌, none, some, List, [], ◌∷◌, arith, ==→eq, if◌then◌else◌,
  Bool-cases, inl, inr,
}
use ece.Machines.{
  Text, same_text, find, put, erase, Machine, done, Store, state_exists, create, remove, is_some,
}

pub same_text-eq : (s t : Text) → same_text s t ≡ true → s ≡ t
unfolding same_text
same_text-eq [] [] h = refl
same_text-eq [] (c ∷ t) h = cc
same_text-eq (c ∷ s) [] h = cc
same_text-eq (c ∷ s) (e ∷ t) h = ground (arith, same_text-eq s t, ==→eq c e)

pub same_text_self : (s : Text) → same_text s s ≡ true
unfolding same_text
same_text_self [] = refl
same_text_self (c ∷ s) = ground (arith, same_text_self s)

module _ {ℓ} {V : Type ℓ} where
  pub find-put :
      (name k : Text) (v : V) (t : List (Text × V))
      → find k (put name v t) ≡ (if same_text name k then some v else find k t)
  unfolding find put
  find-put name k v [] = refl
  find-put name k v ((j, w) ∷ t) = ground (
    arith,
    find-put name k v t,
    same_text-eq j name,
    same_text-eq j k,
    same_text-eq name k,
    same_text_self name,
    same_text_self k,
  )

  pub find-erase :
      (name k : Text) (t : List (Text × V))
      → find k (erase name t) ≡ (if same_text name k then none else find k t)
  unfolding find erase
  find-erase name k [] = ground arith
  find-erase name k ((j, w) ∷ t) = ground (
    arith,
    find-erase name k t,
    same_text-eq j name,
    same_text-eq j k,
    same_text-eq name k,
    same_text_self name,
    same_text_self k,
  )

pub done-injective {ℓ} : {A : Type ℓ} {a b : A} → done a ≡ done b → a ≡ b
done-injective h = cc

module _ (machine : Machine) where
  is_some-find :
      (name k : Text) (m : machine.State) (t : List (Text × machine.State))
      → is_some machine (find k (put name m t)) ≡ (same_text name k || is_some machine (find k t))
  is_some-find name k m t = rw (find-put name k m t) (ground arith)

  -- A `create` that succeeds makes the machine exist, and no other; its state is then the one that
  -- the factory made of the parameter.
  pub create-makes :
      (name initial : Text) (s t : Store machine)
      → create machine name initial s ≡ done t
      → ((k : Text) → state_exists machine k t ≡ (same_text name k || state_exists machine k s))
        × (find name t.machines ≡ some (machine.make initial))
  unfolding create state_exists
  create-makes name initial s t h = elim (Bool-cases (is_some machine (find name s.machines))) [
    | inl old ↦ cc (rw old at h)
    | inr new ↦
        let e : t.machines ≡ put name (machine.make initial) s.machines =
          sym (ap (λ (x : Store machine). x.machines) (done-injective (rw new at h))) in
        rw e (
          λ k. is_some-find name k (machine.make initial) s.machines,
          find-put name name (machine.make initial) s.machines ∙ rw (same_text_self name) refl,
        )
  ]

  -- A `remove` that succeeds makes the machine not exist, and leaves the others as they are.
  pub remove-unmakes :
      (name k : Text) (s t : Store machine)
      → remove machine name s ≡ done t
      → (find k t.machines ≡ (if same_text name k then none else find k s.machines))
        × (find k t.request_queue ≡ (if same_text name k then none else find k s.request_queue))
  unfolding remove state_exists
  remove-unmakes name k s t h = elim (Bool-cases (is_some machine (find name s.machines))) [
    | inl old ↦
        let e = done-injective (rw old at h) in
        (
          sym (ap (λ (x : Store machine). find k x.machines) e) ∙ find-erase name k s.machines,
          sym (ap (λ (x : Store machine). find k x.request_queue) e)
              ∙ find-erase name k s.request_queue,
        )
    | inr new ↦ cc (rw new at h)
  ]
