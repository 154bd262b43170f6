-- ===== src/FrontEnd/Removed.antt =====
-- What stubs do after their machine was removed. MP2/src/client/frontend.h says that they must throw.
use ece.Prelude.{
  fault, undeclared_error, ℕ, suc, ◌≡◌, refl, ap, ◌∙◌, Option, none, some, ==_self, ok,
  ok-injective, >>=-eq-ok,
}
use mathlib.Core.Path.{subst}
use ece.Map.{lookup}
use ece.Machines.{Text, Machine, Store, ErrorType, not_found, Reply, done, throws}
use ece.Placement.{Stores}
use ece.Reading.{remove_all}
use ece.FrontEnd.{
  FrontEnd, System, stub_apply, declared, stub_get_state, removed, remove_from, remove_machine,
}
use ece.Replica.{to_int16}
use ece.FrontEnd.Search.{IsLed, knows, known_by_leader, find_leader-finds}
use ece.FrontEnd.Calls.{apply_at-leader, prepare_at-leader}
use ece.FrontEnd.Without.{Without, remove_all-Without, apply_all-throws, prepare-throws}

module _ (machine : Machine) (name : Text) (n leader : ℕ) where
  module _ (sleep : System machine → System machine) (fuel : ℕ) where
    -- The stores after a `remove` that returns.
    removed-Without :
        (c d : Stores machine) (r : Reply (Stores machine))
        → removed machine n name c r ≡ (d, none)
        → r ≡ done d
    unfolding removed
    removed-Without c d (done e) h = cc
    removed-Without c d (throws e) h = cc

    remove_from-Without :
        (c d : Stores machine) (o : Option (Store machine))
        → remove_from machine n name leader leader c o ≡ ok (d, none)
        → Without machine name n leader d
    unfolding remove_from
    remove_from-Without c d none h = cc
    remove_from-Without c d (some s) h = remove_all-Without machine name n leader s c d (
        removed-Without c d (remove_all machine name n leader s c)
          (ok-injective (rw (==_self leader) at h)))

    -- What the stubs of front end `other` do.
    record Throws (operation : Text) (garbage other known : ℕ) (v : System machine) : Type 0 where
      written :
          stub_apply machine sleep (suc fuel) n name operation v (knows other known)
          ≡ ok (v, knows other leader, throws not_found)
      read :
          stub_get_state machine sleep (suc fuel) n name garbage v (knows other known)
          ≡ fault undeclared_error

    Without-Throws :
        (operation : Text) (garbage other known : ℕ) (v : System machine)
        → IsLed n leader v.cluster
        → Without machine name n leader v.stores
        → Throws operation garbage other known v
    unfolding stub_apply stub_get_state declared
    Without-Throws operation garbage other known v h w =
        let found = find_leader-finds machine n leader sleep fuel other known v h in
        let leads = known_by_leader machine n leader v h in
        let (d, e) = prepare-throws machine name n leader garbage (to_int16 other) v.stores w in
        record {
          written =
              rw
                (
                  found,
                  leads,
                  apply_at-leader machine sleep fuel n leader name operation v.stores
                      (lookup leader v.stores),
                  apply_all-throws machine name n leader operation v.stores w,
                )
                refl;
          read =
              rw
                (
                  found,
                  leads,
                  prepare_at-leader machine sleep fuel n leader name garbage (to_int16 other)
                      v.stores (lookup leader v.stores),
                  e,
                )
                refl;
        }

    remove_machine-Throws :
        (operation : Text) (garbage id known other known' : ℕ) (w v : System machine) (f : FrontEnd)
        → IsLed n leader w.cluster
        → remove_machine machine sleep (suc fuel) n name w (knows id known) ≡ ok (v, f, none)
        → Throws operation garbage other known' v
    unfolding remove_machine
    remove_machine-Throws operation garbage id known other known' w v f h e =
        let (r, p, q) =
          >>=-eq-ok (remove_from machine n name leader leader w.stores (lookup leader w.stores)) _ (
            rw
              (
                find_leader-finds machine n leader sleep fuel id known w h,
                known_by_leader machine n leader w h,
              )
              at e) in
        let same = ok-injective q in
        let quiet : r.1 ≡ none =
          ap (λ (x : System machine × FrontEnd × Option ErrorType). x.2) same in
        subst (λ (x : System machine). Throws operation garbage other known' x)
          (ap (λ (x : System machine × FrontEnd × Option ErrorType). x.0) same)
          (Without-Throws operation garbage other known' (record w { stores = r.0 }) h
            (remove_from-Without w.stores r.0 (lookup leader w.stores)
              (p ∙ ap (λ (o : Option ErrorType). ok (r.0, o)) quiet)))

    -- Where the replicas agree on a leader, which runs, a stub of a machine that a front end has
    -- removed throws, whichever front end it belongs to, where that is not looking for a leader:
    -- `apply` ends with the error that there is no such machine, and `getState` with the exception
    -- that arrives for an error that the interface does not declare.
    pub remove_machine-throws :
        (operation : Text) (garbage id known other known' : ℕ) (w v : System machine) (f : FrontEnd)
        → IsLed n leader w.cluster
        → remove_machine machine sleep (suc fuel) n name w (knows id known) ≡ ok (v, f, none)
        → (stub_apply machine sleep (suc fuel) n name operation v (knows other known')
            ≡ ok (v, knows other leader, throws not_found))
          × (stub_get_state machine sleep (suc fuel) n name garbage v (knows other known')
              ≡ fault undeclared_error)
    remove_machine-throws operation garbage id known other known' w v f h e =
        let t = remove_machine-Throws operation garbage id known other known' w v f h e in
        (t.written, t.read)
