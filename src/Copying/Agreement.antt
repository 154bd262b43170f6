-- ===== src/Copying/Agreement.antt =====
-- A read of a machine on which the replicas agree.
use ece.Prelude.{
  ℕ, ◌+◌, ◌<◌, ◌≤◌, ◌≡◌, refl, ap, ◌∙◌, false, inl, inr, some, List, [], ◌∷◌, ◌++◌, arith, ◌==◌,
  ==→eq, ==_self, Bool-cases, ok,
}
use ece.Int32.{inc}
use ece.Map.{lookup, insert, lookup-insert}
use ece.Machines.{
  Text, find, Machine, Store, Request, done, read_text, erase_read, queue_of, set_queue, dec,
  enqueue_read, notify_finished_reading, get_state,
}
use ece.Machines.Tables.{same_text_self}
use ece.Placement.{Stores}
use ece.Reading.{Choice, choose_reader}
use ece.Replica.{to_int16}
use ece.Copying.{
  has_write, copy_loop, queue_read, copied, chosen, prepare_get_state, notified, got, get_state_at,
}
use ece.Writing.Turn.{Agrees, queue_of-set}
use ece.Writing.Agreement.{IsReplicated}
use ece.Copying.Choosing.{Agrees-suc, insert-IsReplicated, choose-returns}

module _ (machine : Machine) (name : Text) (m : machine.State) (n id b : ℕ)
    (small : b ≤ 2147483647) where
  -- A store in which one read of the client is queued and nothing else.
  pub record Waiting (d where_to client : ℕ) (s : Store machine) : Type 0 where
    pub state : find name s.machines ≡ some m
    pub queue :
        queue_of machine name s
        ≡ record { is_write = false; text = read_text where_to client name } ∷ []
    pub load : s.bw_utilization < d

  enqueue_read-Waiting :
      (where_to client : ℕ) (s : Store machine)
      → Agrees machine name b m (some s)
      → Waiting b where_to client (enqueue_read machine where_to client name s)
  unfolding enqueue_read
  enqueue_read-Waiting where_to client s (h, q, l) =
      let r = record { is_write = false; text = read_text where_to client name } ∷ [] in
      record {
        state = h;
        queue =
            queue_of-set machine name (queue_of machine name s ++ r) s
            ∙ ap (λ (l : List Request). l ++ r) q;
        load = l;
      }

  notify-Agrees :
      (d where_to client : ℕ) (s : Store machine)
      → Waiting d where_to client s
      → Agrees machine name d m (some (notify_finished_reading machine where_to client name s))
  unfolding notify_finished_reading erase_read
  notify-Agrees d where_to client s w = (
    w.state,
    queue_of-set machine name _ s
        ∙ rw w.queue (rw (same_text_self (read_text where_to client name)) refl),
    w.load,
  )

  -- What `prepareGetState` leaves.
  pub record Prepared (client where_to : ℕ) (c : Stores machine) : Type 0 where
    pub before : Stores machine
    pub leading : Store machine
    pub agreed : IsReplicated machine name n id b m before
    pub waiting : Waiting b where_to client leading
    pub after : c ≡ insert id leading before
    pub below : where_to < n
    pub runs : (s : Store machine) × (lookup where_to before ≡ some s)

  abbrev touched : Store machine → Store machine
  touched s = set_queue machine name (queue_of machine name s) s

  touched-Agrees :
      (s : Store machine)
      → Agrees machine name b m (some s)
      → Agrees machine name b m (some (touched s))
  touched-Agrees s (h, q, l) = (h, queue_of-set machine name _ s ∙ q, l)

  prepare_returns :
      (garbage client : ℕ) (s : Store machine) (c : Stores machine) (v : Choice)
      → lookup id c ≡ some s
      → has_write (queue_of machine name s) ≡ false
      → choose_reader machine name garbage n (insert id (touched s) c) ≡ done v
      → v.copy_over ≡ []
      → to_int16 v.least_index ≡ v.least_index
      → prepare_get_state machine n id name garbage client c (lookup id c)
        ≡ ok (
          insert id
              (enqueue_read machine v.least_index client name (touched s))
              (insert id (touched s) c),
          done v.least_index,
        )
  unfolding prepare_get_state chosen copy_loop copied queue_read
  prepare_returns garbage client s c v h w e o low =
      rw (h, w, e, o, lookup-insert id id (touched s) c, ==_self id, low) refl

  pub prepare-Prepared :
      (garbage client : ℕ) (s : Store machine) (c : Stores machine)
      → n ≤ 32768
      → lookup id c ≡ some s
      → IsReplicated machine name n id b m c
      → (where_to : ℕ) × (d : Stores machine) × (prepare_get_state machine n id name garbage client
            c
            (lookup id c)
          ≡ ok (d, done where_to))
        × Prepared client where_to d
  unfolding to_int16
  prepare-Prepared garbage client s c few h r =
      let a : Agrees machine name b m (some s) = rw h at (r.agree id r.below) in
      let r' =
        insert-IsReplicated machine name m n id b small (touched s) c (touched-Agrees s a) r in
      let (v, e, none_over, l, u, f) =
        choose-returns machine name m n id b small garbage (insert id (touched s) c) r' in
      (
        v.least_index,
        insert id (enqueue_read machine v.least_index client name (touched s))
            (insert id (touched s) c),
        prepare_returns garbage client s c v h (rw a.1 refl) e none_over (ground arith),
        record {
          before = insert id (touched s) c;
          leading = enqueue_read machine v.least_index client name (touched s);
          agreed = r';
          waiting = enqueue_read-Waiting v.least_index client (touched s) (touched-Agrees s a);
          after = refl;
          below = l;
          runs = (u, f);
        },
      )

  got-Agrees :
      (d where_to client : ℕ) (s : Store machine)
      → find name s.machines ≡ some m
      → s.bw_utilization < b
      → (t : Store machine) × (get_state machine name s ≡ done (t, machine.get_state m))
        × (t.machines ≡ s.machines)
        × (t.request_queue ≡ s.request_queue)
        × (t.bw_utilization < b + 1)
  unfolding get_state inc
  got-Agrees d where_to client s h l = (
    record s { queue_len = dec machine (inc s.queue_len); bw_utilization = inc s.bw_utilization },
    rw h refl,
    refl,
    refl,
    omega arith,
  )

  get_returns :
      (where_to client : ℕ) (x t y : Store machine) (c : Stores machine) (result : Text)
      → lookup where_to c ≡ some x
      → get_state machine name x ≡ done (t, result)
      → lookup id (insert where_to t c) ≡ some y
      → get_state_at machine n id name where_to client c (lookup where_to c)
        ≡ ok (
          insert id (notify_finished_reading machine where_to client name y) (insert where_to t c),
          done result,
        )
  unfolding get_state_at got notified
  get_returns where_to client x t y c result h g e = rw (h, g, e) refl

  finish-IsReplicated :
      (where_to client : ℕ) (t y leading : Store machine) (c : Stores machine)
      → IsReplicated machine name n id b m c
      → Waiting (b + 1) where_to client y
      → ((where_to == id) ≡ false → Agrees machine name (b + 1) m (some t))
      → IsReplicated machine name n id (b + 1) m (
          insert id
            (notify_finished_reading machine where_to client name y)
            (insert where_to t (insert id leading c)))
  finish-IsReplicated where_to client t y leading c r w a =
      let last = notify_finished_reading machine where_to client name y in
      let read = insert where_to t (insert id leading c) in
      record {
        below = r.below;
        leads = (last, rw (lookup-insert id id last read, ==_self id) refl);
        agree = λ k l. rw (lookup-insert id k last read) (elim (Bool-cases (id == k)) [
          | inl own ↦ rw own (notify-Agrees (b + 1) where_to client y w)
          | inr other ↦
              rw (other, lookup-insert where_to k t (insert id leading c))
                (elim (Bool-cases (where_to == k)) [
                  | inl reader ↦ rw reader (a (ground (arith, ==→eq where_to k)))
                  | inr rest ↦
                      rw (rest, lookup-insert id k leading c, other)
                        (Agrees-suc machine name m b (lookup k c) (r.agree k l))
                ])
        ]);
      }

  -- The answer of the replica that was chosen, and the stores after it.
  pub get-Agrees :
      (where_to client : ℕ) (c : Stores machine)
      → Prepared client where_to c
      → (d : Stores machine) × (get_state_at machine n id name where_to client c (lookup where_to c)
          ≡ ok (d, done (machine.get_state m)))
        × IsReplicated machine name n id (b + 1) m d
  get-Agrees where_to client c p = elim (Bool-cases (where_to == id)) [
    | inl own ↦
        let e = ==→eq where_to id own in
        let (t, g, k, q, l) =
          got-Agrees b where_to client p.leading p.waiting.state p.waiting.load in
        (
          insert id (notify_finished_reading machine where_to client name t) (insert where_to t c),
          get_returns where_to client p.leading t t c (machine.get_state m)
              (rw (p.after, lookup-insert id where_to p.leading p.before) (ground (arith, own))) g
              (rw (lookup-insert where_to id t c, own) refl),
          rw p.after (
              finish-IsReplicated where_to client t t p.leading p.before p.agreed
                (record { state = rw k p.waiting.state; queue = rw q p.waiting.queue; load = l })
                (λ o. cc)),
        )
    | inr other ↦
        let (x, h) = p.runs in
        let a : Agrees machine name b m (some x) = rw h at (p.agreed.agree where_to p.below) in
        let (t, g, k, q, l) = got-Agrees b where_to client x a.0 a.2 in
        let apart : (id == where_to) ≡ false = ground arith in
        (
          insert id (notify_finished_reading machine where_to client name p.leading)
              (insert where_to t c),
          get_returns where_to client x t p.leading c (machine.get_state m)
              (rw (p.after, lookup-insert id where_to p.leading p.before, apart) h) g
              (rw
                (
                  p.after,
                  lookup-insert where_to id t (insert id p.leading p.before),
                  other,
                  lookup-insert id id p.leading p.before,
                  ==_self id,
                )
                refl),
          rw p.after (
              finish-IsReplicated where_to client t p.leading p.leading p.before p.agreed
                (record {
                  state = p.waiting.state;
                  queue = p.waiting.queue;
                  load = omega (arith, p.waiting.load);
                })
                (λ o. (rw k a.0, rw q a.1, l))),
        )
  ]
