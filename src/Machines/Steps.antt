-- ===== src/Machines/Steps.antt =====
-- Each step at the queue of a machine keeps the writes in order.
use ece.Prelude.{
  ℕ, ◌+◌, ◌≡◌, ◌⊎◌, refl, sym, ap, ◌∙◌, true, ◌&&◌, some, List, [], ◌∷◌, ◌++◌, append_assoc, arith,
  inl, inr, ok,
}
use ece.Machines.{
  Text, same_text, find, Machine, Request, Store, queue_of, set_queue, state_exists, enqueue_write,
  is_next, perform_write, dequeue, dequeue_from,
}
use ece.Machines.Tables.{same_text_self, same_text-eq, find-put}
use ece.Machines.Texts.{
  writes_in, IsAbsent, AreDistinct, same_text_sym, IsAbsent-append, IsAbsent-after, IsAbsent-before,
  AreDistinct-append, take_one-IsAbsent, take_one-AreDistinct, take_one-gone, waits-IsAbsent,
  writes_in-append,
}
use ece.Machines.Turns.{waits, take_one, Service, begun, passed, end_one}

module _ (machine : Machine) (name : Text) where
  -- The state after some operations.
  abbrev pub after : List Text → machine.State → machine.State
  after [] m = m
  after (operation ∷ ops) m = after ops (machine.apply operation m).0

  after-append :
      (xs : List Text) (x : Text) (m : machine.State)
      → after (xs ++ x ∷ []) m ≡ (machine.apply x (after xs m)).0
  after-append [] x m = refl
  after-append (y ∷ xs) x m = after-append xs x (machine.apply y m).0

  -- No call is between its operation and the end, and what is finished with what is queued are all
  -- writes.
  pub record IsIdle (all finished : List Text) (c : Service machine) : Type 0 where
    pub quiet : c.ending ≡ 0
    pub order : finished ++ writes_in (queue_of machine name c.store) ≡ all

  -- The last operation is performed, and its write is still at the head.
  pub record IsBusy (all finished : List Text) (c : Service machine) : Type 0 where
    pub one : c.ending ≡ 1
    pub head : Text
    pub before : List Text
    pub rest : List Request
    pub last : finished ≡ before ++ head ∷ []
    pub queue : queue_of machine name c.store ≡ record { is_write = true; text = head } ∷ rest
    pub order : before ++ head ∷ writes_in rest ≡ all
    pub alone : IsAbsent head c.waiting

  -- The operations that took effect are the first ones of all the writes, in their order.
  pub record InOrder (all : List Text) (m : machine.State) (c : Service machine) : Type 0 where
    pub finished : List Text
    pub state : find name c.store.machines ≡ some (after finished m)
    pub phase : IsIdle all finished c ⊎ IsBusy all finished c
    pub distinct : AreDistinct c.waiting
    pub known : (x : Text) → IsAbsent x all → IsAbsent x c.waiting

  queue_of-set :
      (q : List Request) (s : Store machine)
      → queue_of machine name (set_queue machine name q s) ≡ q
  queue_of-set q s = rw (find-put name name q s.request_queue, same_text_self name) refl

  pub begin-InOrder :
      (all : List Text) (m : machine.State) (c : Service machine) (x : Text)
      → IsAbsent x all
      → InOrder all m c
      → InOrder (all ++ x ∷ []) m (begun machine name x c (enqueue_write machine name x c.store))
  unfolding enqueue_write state_exists begun
  begin-InOrder all m c x new i =
      let q = queue_of machine name c.store in
      let w : List Request = record { is_write = true; text = x } ∷ [] in
      rw i.state (record {
        finished = i.finished;
        state = i.state;
        phase = elim i.phase [
          | inl idle ↦ inl (record {
            quiet = idle.quiet;
            order =
                rw (queue_of-set (q ++ w) c.store, writes_in-append q w)
                  (sym (append_assoc i.finished (writes_in q) (x ∷ []))
                    ∙ ap (λ (l : List Text). l ++ x ∷ []) idle.order);
          })
          | inr busy ↦ inr (record {
            one = busy.one;
            head = busy.head;
            before = busy.before;
            rest = busy.rest ++ w;
            last = busy.last;
            queue = queue_of-set (q ++ w) c.store ∙ ap (λ (l : List Request). l ++ w) busy.queue;
            order = rw (writes_in-append busy.rest w) (
                sym (append_assoc busy.before (busy.head ∷ writes_in busy.rest) (x ∷ []))
                ∙ ap (λ (l : List Text). l ++ x ∷ []) busy.order);
            alone = IsAbsent-append busy.head c.waiting (x ∷ []) busy.alone (
              same_text_sym x busy.head
                  ∙ (IsAbsent-after x busy.before (busy.head ∷ writes_in busy.rest)
                      (rw busy.order new)).0,
              tt,
            );
          })
        ];
        distinct = AreDistinct-append x c.waiting i.distinct (i.known x new);
        known = λ y a.
            IsAbsent-append y c.waiting (x ∷ []) (i.known y (IsAbsent-before y all (x ∷ []) a))
              ((IsAbsent-after y all (x ∷ []) a).0, tt);
      })

  head_is :
      (x : Text) (r : Request)
      → (r.is_write && same_text r.text x) ≡ true
      → r ≡ record { is_write = true; text = x }
  head_is x r h =
      let w : r.is_write ≡ true = ground arith in
      let t : same_text r.text x ≡ true = ground arith in cc (w, same_text-eq r.text x t)

  head_text :
      (h x : Text) (rest rest' : List Request)
      → ◌≡◌ {A = List Request}
          (record { is_write = true; text = h } ∷ rest)
          (record { is_write = true; text = x } ∷ rest')
      → h ≡ x
  head_text h x rest rest' e = cc e

  perform-InOrder :
      (all : List Text) (m : machine.State) (c : Service machine) (x : Text) (rest : List Request)
      → waits x c.waiting ≡ true
      → queue_of machine name c.store ≡ record { is_write = true; text = x } ∷ rest
      → InOrder all m c
      → (d : Service machine) × (passed machine name x c (find name c.store.machines) ≡ ok d)
        × InOrder all m d
  unfolding passed perform_write
  perform-InOrder all m c x rest w e i =
      let m' = after i.finished m in
      (
        record {
          store = perform_write machine x m' name c.store;
          waiting = take_one x c.waiting;
          ending = c.ending + 1;
        },
        rw i.state refl,
        record {
          finished = i.finished ++ x ∷ [];
          state =
              find-put name name (machine.apply x m').0 c.store.machines
              ∙ rw (same_text_self name, after-append i.finished x m) refl;
          phase = inr (elim i.phase [
            | inl idle ↦ record {
              one = ap (λ (k : ℕ). k + 1) idle.quiet;
              head = x;
              before = i.finished;
              rest = rest;
              last = refl;
              queue = e;
              order = rw e at idle.order;
              alone = take_one-gone x c.waiting i.distinct;
            }
            | inr busy ↦
                let same = head_text busy.head x busy.rest rest (sym busy.queue ∙ e) in
                let gone = waits-IsAbsent busy.head c.waiting busy.alone in
                absurd (cc (gone, w, same))
          ]);
          distinct = take_one-AreDistinct x c.waiting i.distinct;
          known = λ y a. take_one-IsAbsent y x c.waiting (i.known y a);
        },
      )

  pub pass-InOrder :
      (all : List Text) (m : machine.State) (c : Service machine) (x : Text) (q : List Request)
      → (waits x c.waiting && is_next x q) ≡ true
      → queue_of machine name c.store ≡ q
      → InOrder all m c
      → (d : Service machine) × (passed machine name x c (find name c.store.machines) ≡ ok d)
        × InOrder all m d
  pass-InOrder all m c x [] w e i = absurd (ground arith)
  pass-InOrder all m c x (r ∷ rest) w e i =
      let waiting : waits x c.waiting ≡ true = ground arith in
      let next : (r.is_write && same_text r.text x) ≡ true = ground arith in
      perform-InOrder all m c x rest waiting (e ∙ ap (λ (h : Request). h ∷ rest) (head_is x r next))
        i

  pub end-InOrder :
      (all : List Text) (m : machine.State) (c : Service machine)
      → InOrder all m c
      → (d : Service machine) × (end_one machine name c.ending c ≡ ok d) × InOrder all m d
  unfolding end_one dequeue dequeue_from
  end-InOrder all m c i = elim i.phase [
    | inl idle ↦ (c, rw idle.quiet refl, i)
    | inr busy ↦ (
      record c { store = set_queue machine name busy.rest c.store; ending = 0 },
      rw (busy.one, busy.queue) refl,
      record {
        finished = i.finished;
        state = i.state;
        phase = inl (record {
          quiet = refl;
          order =
              rw (queue_of-set busy.rest c.store, busy.last)
                (append_assoc busy.before (busy.head ∷ []) (writes_in busy.rest) ∙ busy.order);
        });
        distinct = i.distinct;
        known = i.known;
      },
    )
  ]

  -- A change of the queue that leaves its writes, and a write at its head.
  pub set-InOrder :
      (all : List Text) (m : machine.State) (c : Service machine) (f : List Request → List Request)
      → ((q : List Request) → writes_in (f q) ≡ writes_in q)
      → ((x : Text) (q : List Request)
          → f (record { is_write = true; text = x } ∷ q)
            ≡ record { is_write = true; text = x } ∷ f q)
      → InOrder all m c
      → InOrder all m
          (record c { store = set_queue machine name (f (queue_of machine name c.store)) c.store })
  set-InOrder all m c f same head i = record {
    finished = i.finished;
    state = i.state;
    phase = elim i.phase [
      | inl idle ↦ inl (record {
        quiet = idle.quiet;
        order =
            rw
              (
                queue_of-set (f (queue_of machine name c.store)) c.store,
                same (queue_of machine name c.store),
              )
              idle.order;
      })
      | inr busy ↦ inr (record {
        one = busy.one;
        head = busy.head;
        before = busy.before;
        rest = f busy.rest;
        last = busy.last;
        queue =
            queue_of-set (f (queue_of machine name c.store)) c.store
            ∙ ap f busy.queue
            ∙ head busy.head busy.rest;
        order = rw (same busy.rest) busy.order;
        alone = busy.alone;
      })
    ];
    distinct = i.distinct;
    known = i.known;
  }
