-- ===== src/Machines/Writes.antt =====
-- Writes with different texts take effect in the order in which they were queued.
use mathlib.Core.Path.{subst}
use ece.Prelude.{
  ◌≡◌, refl, sym, ap, ◌∙◌, false, ◌&&◌, some, List, [], ◌∷◌, ◌++◌, append_assoc, append-nil,
  Bool-cases, inl, inr, ok,
}
use ece.Machines.{
  Text, find, Machine, read_text, erase_read, queue_of, is_next, enqueue_read,
  notify_finished_reading,
}
use ece.Machines.Steps.{InOrder, begin-InOrder, pass-InOrder, end-InOrder, set-InOrder}
use ece.Machines.Texts.{
  writes_in, submitted, AreDistinct, AreNew, writes_in-append, writes_in-erase_read,
}
use ece.Machines.Turns.{
  Event, begins, passes, ends, reads, finishes, waits, Service, on_event, run_events,
}

module _ (machine : Machine) (name : Text) where
  event-InOrder :
      (e : Event) (all : List Text) (m : machine.State) (c : Service machine)
      → AreNew all (e ∷ [])
      → InOrder machine name all m c
      → (d : Service machine) × (on_event machine name e c ≡ ok d)
        × InOrder machine name (all ++ submitted (e ∷ [])) m d
  unfolding on_event enqueue_read notify_finished_reading erase_read
  event-InOrder (begins x) all m c n i = (_, refl, begin-InOrder machine name all m c x n.0 i)
  event-InOrder (passes x) all m c n i =
      rw (append-nil all)
        (elim (Bool-cases (waits x c.waiting && is_next x (queue_of machine name c.store))) [
          | inl now ↦
              rw now
                (pass-InOrder machine name all m c x (queue_of machine name c.store) now refl i)
          | inr later ↦ rw later (c, refl, i)
        ])
  event-InOrder ends all m c n i = rw (append-nil all) (end-InOrder machine name all m c i)
  event-InOrder (reads where_to client) all m c n i = rw (append-nil all) (
    _,
    refl,
    set-InOrder machine name all m c
        (λ q. q ++ record { is_write = false; text = read_text where_to client name } ∷ [])
        (λ q. writes_in-append q _ ∙ append-nil (writes_in q)) (λ x q. refl) i,
  )
  event-InOrder (finishes rmid client) all m c n i = rw (append-nil all) (
    _,
    refl,
    set-InOrder machine name all m c (erase_read (read_text rmid client name))
        (writes_in-erase_read (read_text rmid client name)) (λ x q. refl) i,
  )

  AreNew-first :
      (e : Event) (es : List Event) (all : List Text)
      → AreNew all (e ∷ es)
      → AreNew all (e ∷ []) × AreNew (all ++ submitted (e ∷ [])) es
  AreNew-first (begins x) es all (new, rest) = ((new, tt), rest)
  AreNew-first (passes x) es all n = (tt, rw (append-nil all) n)
  AreNew-first ends es all n = (tt, rw (append-nil all) n)
  AreNew-first (reads where_to client) es all n = (tt, rw (append-nil all) n)
  AreNew-first (finishes rmid client) es all n = (tt, rw (append-nil all) n)

  submitted-cons :
      (e : Event) (es : List Event) → submitted (e ∷ []) ++ submitted es ≡ submitted (e ∷ es)
  submitted-cons (begins x) es = refl
  submitted-cons (passes x) es = refl
  submitted-cons ends es = refl
  submitted-cons (reads where_to client) es = refl
  submitted-cons (finishes rmid client) es = refl

  events-InOrder :
      (es : List Event) (all : List Text) (m : machine.State) (c : Service machine)
      → AreNew all es
      → InOrder machine name all m c
      → (d : Service machine) × (run_events machine name es c ≡ ok d)
        × InOrder machine name (all ++ submitted es) m d
  unfolding run_events
  events-InOrder [] all m c n i = (c, refl, rw (append-nil all) i)
  events-InOrder (e ∷ es) all m c n i =
      let (new, rest) = AreNew-first e es all n in
      let (d, p, j) = event-InOrder e all m c new i in
      let (t, q, k) = events-InOrder es (all ++ submitted (e ∷ [])) m d rest j in
      (
        t,
        rw p q,
        subst (λ (l : List Text). InOrder machine name l m t)
            (append_assoc all (submitted (e ∷ [])) (submitted es)
              ∙ ap (λ (l : List Text). all ++ l) (submitted-cons e es))
            k,
      )

  -- While a machine exists, whatever calls begin, pass their wait, end, and read, in any
  -- interleaving, as long as no write has the text of one before it: no call fails, and the
  -- operations that took effect on the machine are the first ones of the writes that were queued
  -- at first and those submitted since, in that order, none lost and none done twice. The others are
  -- in the queue, in that order, behind the last one performed until its call has ended.
  pub run_events-InOrder :
      (es : List Event) (m : machine.State) (c : Service machine)
      → find name c.store.machines ≡ some m
      → c.ending ≡ 0
      → c.waiting ≡ writes_in (queue_of machine name c.store)
      → AreDistinct c.waiting
      → AreNew c.waiting es
      → (d : Service machine) × (run_events machine name es c ≡ ok d)
        × InOrder machine name (c.waiting ++ submitted es) m d
  run_events-InOrder es m c h quiet same distinct new =
      events-InOrder es c.waiting m c new (record {
        finished = [];
        state = h;
        phase = inl (record { quiet = quiet; order = sym same });
        distinct = distinct;
        known = λ x a. a;
      })
