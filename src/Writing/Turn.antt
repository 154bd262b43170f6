-- ===== src/Writing/Turn.antt =====
-- One replica's turn in an `apply`, where the replicas agree on the machine.
use ece.Prelude.{
  ℕ, ◌+◌, ◌<◌, ◌≤◌, ◌≡◌, refl, ap, ◌++◌, ◌∙◌, true, Option, none, some, List, [], ◌∷◌, arith, ok,
}
use ece.Int32.{inc}
use ece.Machines.{
  Text, find, Machine, Store, Request, done, queue_of, set_queue, state_exists, enqueue_write,
  perform_write, dequeue, dequeue_from,
}
use ece.Machines.Tables.{same_text_self, find-put}
use ece.Writing.{take_turn, await_turn, apply_reply, apply_here}

module _ (machine : Machine) (name : Text) where
  -- A replica, if it runs, has the machine in state m, no request for it, and a load below b.
  abbrev pub Agrees : ℕ → machine.State → Option (Store machine) → Type 0
  Agrees b m none = Unit
  Agrees b m (some s) =
      (find name s.machines ≡ some m) × (queue_of machine name s ≡ []) × (s.bw_utilization < b)

  pub queue_of-set :
      (q : List Request) (s : Store machine)
      → queue_of machine name (set_queue machine name q s) ≡ q
  queue_of-set q s = rw (find-put name name q s.request_queue, same_text_self name) refl

  module _ (operation : Text) (m : machine.State) (b : ℕ) (small : b ≤ 2147483647) where
    abbrev pub next : machine.State
    next = (machine.apply operation m).0

    -- The write is queued, and nothing else is.
    pub record Queued (s : Store machine) : Type 0 where
      pub state : find name s.machines ≡ some m
      pub queue : queue_of machine name s ≡ record { is_write = true; text = operation } ∷ []
      pub load : s.bw_utilization < b

    pub enqueue-Queued :
        (s : Store machine)
        → Agrees b m (some s)
        → (t : Store machine) × (enqueue_write machine name operation s ≡ done t) × Queued t
    unfolding enqueue_write state_exists
    enqueue-Queued s (h, q, l) = (
      set_queue machine name
          (queue_of machine name s ++ record { is_write = true; text = operation } ∷ []) s,
      rw h refl,
      record {
        state = h;
        queue =
            let w = record { is_write = true; text = operation } ∷ [] in
            queue_of-set (queue_of machine name s ++ w) s ∙ ap (λ (l : List Request). l ++ w) q;
        load = l;
      },
    )

    -- The store after the turn.
    abbrev after_turn : Store machine → Store machine
    after_turn s = set_queue machine name [] (perform_write machine operation m name s)

    after_turn-Agrees :
        (s : Store machine) → s.bw_utilization < b → Agrees (b + 1) next (some (after_turn s))
    unfolding inc perform_write
    after_turn-Agrees s l = (
      rw (find-put name name next s.machines, same_text_self name) refl,
      rw (find-put name name [] s.request_queue, same_text_self name) refl,
      omega arith,
    )

    pub turn-Agrees :
        (s : Store machine)
        → Queued s
        → (t : Store machine) × (take_turn machine name operation (find name s.machines) s
            ≡ ok (t, (machine.apply operation m).1))
          × Agrees (b + 1) next (some t)
    unfolding take_turn dequeue dequeue_from perform_write
    turn-Agrees s q = (after_turn s, rw (q.state, q.queue) refl, after_turn-Agrees s q.load)

    pub apply_here-Agrees :
        (s : Store machine)
        → Agrees b m (some s)
        → (t : Store machine) × (apply_here machine name operation s
            ≡ ok (done (t, (machine.apply operation m).1)))
          × Agrees (b + 1) next (some t)
    unfolding apply_here apply_reply await_turn
    apply_here-Agrees s h =
        let (u, e, q) = enqueue-Queued s h in
        let (t, f, a) = turn-Agrees u q in (t, rw (e, q.queue, same_text_self operation, f) refl, a)
