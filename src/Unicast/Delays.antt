-- ===== src/Unicast/Delays.antt =====
-- The queue of the delayed messages, with a strict order of the times that is total.
use mathlib.Core.List.{Perm, perm_middle, perm-append_left_iff}
use mathlib.Core.List.Perm
use mathlib.Core.Path.{subst}
use ece.Prelude.{
  ◌≡◌, refl, sym, ap, ◌∙◌, Bool, true, false, ◌||◌, not, List, [], ◌∷◌, ◌++◌, append_assoc, arith,
  if◌then◌else◌, Bool-cases, inl, inr, filter,
}
use ece.Unicast.{
  goes_first, is_waiting, Delayed, insert_message, send_due, Net, catch_alarm, usend_message,
}

-- What can happen to the queue.
pub data Op (Time : Type 0) : Type 0 where
  sends : Bool → Delayed Time → Op Time
  rings : Time → Op Time

module _ {Time : Type 0} (is_less : Time → Time → Bool) where
  abbrev pub run_op : Op Time → Net is_less → Net is_less
  run_op (sends dropped m) n = usend_message is_less dropped m n
  run_op (rings now) n = catch_alarm is_less now n

  abbrev pub run : List (Op Time) → Net is_less → Net is_less
  run [] n = n
  run (o ∷ os) n = run os (run_op o n)

  -- The messages that were not dropped.
  abbrev pub accepted : List (Op Time) → List (Delayed Time)
  accepted [] = []
  accepted (sends true m ∷ os) = accepted os
  accepted (sends false m ∷ os) = m ∷ accepted os
  accepted (rings now ∷ os) = accepted os

  abbrev pub all_of : Net is_less → List (Delayed Time)
  all_of n = n.sent ++ n.queue

  insert_message-Perm :
      (m : Delayed Time) (q : List (Delayed Time)) → Perm (insert_message is_less m q) (m ∷ q)
  unfolding insert_message
  insert_message-Perm m [] = Perm.refl _
  insert_message-Perm m (d ∷ q) = elim (Bool-cases (is_less d.delivery_time m.delivery_time)) [
    | inl e ↦ rw e (Perm.trans (Perm.cons d (insert_message-Perm m q)) (Perm.swap m d q))
    | inr e ↦ rw e (Perm.refl _)
  ]

  send_due-append :
      (now : Time) (q : List (Delayed Time))
      → (send_due is_less now q).0 ++ (send_due is_less now q).1 ≡ q
  unfolding send_due
  send_due-append now [] = refl
  send_due-append now (d ∷ q) = ground (arith, send_due-append now q)

  run_op-Perm :
      (o : Op Time) (n : Net is_less) → Perm (all_of (run_op o n)) (accepted (o ∷ []) ++ all_of n)
  unfolding catch_alarm usend_message
  run_op-Perm (sends true m) n = Perm.refl _
  run_op-Perm (sends false m) n =
      Perm.trans ((perm-append_left_iff n.sent).1 (insert_message-Perm m n.queue))
        (perm_middle n.sent n.queue)
  run_op-Perm (rings now) n =
      subst (λ (l : List (Delayed Time)). Perm l (all_of n))
        (sym (
          append_assoc n.sent (send_due is_less now n.queue).0 (send_due is_less now n.queue).1
          ∙ ap (λ (l : List (Delayed Time)). n.sent ++ l) (send_due-append now n.queue)))
        (Perm.refl (all_of n))

  accepted-Perm :
      (o : Op Time) (os : List (Op Time)) (l : List (Delayed Time))
      → Perm (accepted os ++ (accepted (o ∷ []) ++ l)) (accepted (o ∷ os) ++ l)
  accepted-Perm (sends true m) os l = Perm.refl _
  accepted-Perm (sends false m) os l = perm_middle (accepted os) l
  accepted-Perm (rings now) os l = Perm.refl _

  -- Whatever is sent and however the alarm rings: a message that is not dropped is in the queue or
  -- was sent, and that once. Nothing else is there.
  pub run-Perm :
      (os : List (Op Time)) (n : Net is_less) → Perm (all_of (run os n)) (accepted os ++ all_of n)
  run-Perm [] n = Perm.refl _
  run-Perm (o ∷ os) n = Perm.trans (run-Perm os (run_op o n)) (
      Perm.trans ((perm-append_left_iff (accepted os)).1 (run_op-Perm o n))
        (accepted-Perm o os (all_of n)))

  usend-armed :
      (m : Delayed Time) (q : List (Delayed Time)) (b : Bool)
      → (not (is_waiting is_less q) || b) ≡ true
      → (not (is_waiting is_less (insert_message is_less m q))
          || (if goes_first is_less m q then true else b))
        ≡ true
  unfolding insert_message goes_first
  usend-armed m [] b h = refl
  usend-armed m (d ∷ q) b h = ground arith

  run_op-armed :
      (o : Op Time) (n : Net is_less)
      → (not (is_waiting is_less n.queue) || n.armed) ≡ true
      → (not (is_waiting is_less (run_op o n).queue) || (run_op o n).armed) ≡ true
  unfolding catch_alarm usend_message
  run_op-armed (sends true m) n h = h
  run_op-armed (sends false m) n h = usend-armed m n.queue n.armed h
  run_op-armed (rings now) n h = ground arith

  -- While a message waits in the queue the alarm is set.
  pub run-armed :
      (os : List (Op Time)) (n : Net is_less)
      → (not (is_waiting is_less n.queue) || n.armed) ≡ true
      → (not (is_waiting is_less (run os n).queue) || (run os n).armed) ≡ true
  run-armed [] n h = h
  run-armed (o ∷ os) n h = run-armed os (run_op o n) (run_op-armed o n h)

  -- No message of a list comes before a time.
  abbrev pub NoneBefore : Time → List (Delayed Time) → Type 0
  NoneBefore t [] = Unit
  NoneBefore t (d ∷ q) = (is_less d.delivery_time t ≡ false) × NoneBefore t q

  -- The delivery times do not descend.
  abbrev pub IsQueue : List (Delayed Time) → Type 0
  IsQueue [] = Unit
  IsQueue (d ∷ q) = NoneBefore d.delivery_time q × IsQueue q

  -- What `<` on doubles that are numbers is.
  pub record IsOrder : Type 0 where
    pub asymm : (a b : Time) → is_less a b ≡ true → is_less b a ≡ false
    pub chain : (a b c : Time) → is_less a b ≡ false → is_less b c ≡ false → is_less a c ≡ false

  module _ (w : IsOrder) where
    NoneBefore-chain :
        (t u : Time) (q : List (Delayed Time))
        → is_less t u ≡ false
        → NoneBefore t q
        → NoneBefore u q
    NoneBefore-chain t u [] h b = tt
    NoneBefore-chain t u (d ∷ q) h b =
        (w.chain d.delivery_time t u b.0 h, NoneBefore-chain t u q h b.1)

    insert_message-NoneBefore :
        (t : Time) (m : Delayed Time) (q : List (Delayed Time))
        → is_less m.delivery_time t ≡ false
        → NoneBefore t q
        → NoneBefore t (insert_message is_less m q)
    unfolding insert_message
    insert_message-NoneBefore t m [] h b = (h, tt)
    insert_message-NoneBefore t m (d ∷ q) h b =
        ground (arith, insert_message-NoneBefore t m q h b.1)

    insert_message-IsQueue :
        (m : Delayed Time) (q : List (Delayed Time))
        → IsQueue q
        → IsQueue (insert_message is_less m q)
    unfolding insert_message
    insert_message-IsQueue m [] i = (tt, tt)
    insert_message-IsQueue m (d ∷ q) i =
        elim (Bool-cases (is_less d.delivery_time m.delivery_time)) [
          | inl e ↦ rw e (
            insert_message-NoneBefore d.delivery_time m q (w.asymm _ _ e) i.0,
            insert_message-IsQueue m q i.1,
          )
          | inr e ↦ rw e ((e, NoneBefore-chain d.delivery_time m.delivery_time q e i.0), i)
        ]

    send_due-IsQueue :
        (now : Time) (q : List (Delayed Time)) → IsQueue q → IsQueue (send_due is_less now q).1
    unfolding send_due
    send_due-IsQueue now [] i = tt
    send_due-IsQueue now (d ∷ q) i = ground (arith, send_due-IsQueue now q i.1)

    run_op-IsQueue : (o : Op Time) (n : Net is_less) → IsQueue n.queue → IsQueue (run_op o n).queue
    unfolding catch_alarm usend_message
    run_op-IsQueue (sends true m) n i = i
    run_op-IsQueue (sends false m) n i = insert_message-IsQueue m n.queue i
    run_op-IsQueue (rings now) n i = send_due-IsQueue now n.queue i

    -- The queue stays in the order of the delivery times, whatever is sent and however the alarm
    -- rings.
    pub run-IsQueue :
        (os : List (Op Time)) (n : Net is_less) → IsQueue n.queue → IsQueue (run os n).queue
    run-IsQueue [] n i = i
    run-IsQueue (o ∷ os) n i = run-IsQueue os (run_op o n) (run_op-IsQueue o n i)

    none_due :
        (now t : Time) (q : List (Delayed Time))
        → is_less now t ≡ true
        → NoneBefore t q
        → filter (λ d. not (is_less now d.delivery_time)) q ≡ []
    none_due now t [] h b = refl
    none_due now t (d ∷ q) h b =
        ground (arith, w.chain now d.delivery_time t, none_due now t q h b.1)

    send_due-filter :
        (now : Time) (q : List (Delayed Time))
        → IsQueue q
        → (send_due is_less now q).0 ≡ filter (λ d. not (is_less now d.delivery_time)) q
    unfolding send_due
    send_due-filter now [] i = refl
    send_due-filter now (d ∷ q) i =
        ground (arith, send_due-filter now q i.1, none_due now d.delivery_time q)

    all_late :
        (now t : Time) (q : List (Delayed Time))
        → is_less now t ≡ true
        → NoneBefore t q
        → filter (λ d. is_less now d.delivery_time) q ≡ q
    all_late now t [] h b = refl
    all_late now t (d ∷ q) h b =
        ground (arith, w.chain now d.delivery_time t, all_late now t q h b.1)

    send_due-rest :
        (now : Time) (q : List (Delayed Time))
        → IsQueue q
        → (send_due is_less now q).1 ≡ filter (λ d. is_less now d.delivery_time) q
    unfolding send_due
    send_due-rest now [] i = refl
    send_due-rest now (d ∷ q) i =
        ground (arith, send_due-rest now q i.1, all_late now d.delivery_time q)

    -- On a queue in order the alarm sends exactly the messages that are due, in the order of the
    -- queue, and keeps the others.
    pub catch_alarm-filter :
        (now : Time) (n : Net is_less)
        → IsQueue n.queue
        → ((catch_alarm is_less now n).sent
            ≡ n.sent ++ filter (λ d. not (is_less now d.delivery_time)) n.queue)
          × ((catch_alarm is_less now n).queue ≡ filter (λ d. is_less now d.delivery_time) n.queue)
    unfolding catch_alarm
    catch_alarm-filter now n i = (
      ap (λ (l : List (Delayed Time)). n.sent ++ l) (send_due-filter now n.queue i),
      send_due-rest now n.queue i,
    )
