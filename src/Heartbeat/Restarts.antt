-- ===== src/Heartbeat/Restarts.antt =====
-- Who is heard restarts his own timer, and no other.
use ece.Prelude.{
  ℕ, ◌≡◌, refl, sym, ap, ◌∙◌, Bool, true, not, ◌&&◌, Option, none, some, List, [], ◌∷◌, ◌++◌, arith,
  ◌==◌, ==→eq, if◌then◌else◌, Bool-cases, inl, inr, Result, ok, ◌>>=◌,
}
use ece.Map.{Map, lookup, touch, lookup-touch, member}
use ece.Heartbeat.{to_spec, Spec, Heartbeat, Setting, make_heartbeat, arm_loop, arm, reset}
use ece.Heartbeat.Timers.{is_some, all_timers, IsOwn, create_loop-Created}

-- The settings of a process's timers with their times, in order.
abbrev pub Log : Type 0
Log = List (ℕ × Setting)

-- When a timer was last set.
abbrev pub last_set : ℕ → Log → Option ℕ → Option ℕ
last_set t [] o = o
last_set t ((time, s) ∷ log) o = last_set t log (if s.timer == t then some time else o)

-- When a process was last heard, among messages with their times and senders.
abbrev pub last_heard : ℕ → List (ℕ × ℕ) → ℕ → ℕ
last_heard k [] last = last
last_heard k ((time, sender) ∷ es) last = last_heard k es (if sender == k then time else last)

abbrev pub is_external : ℕ → List ℕ → ℕ → Bool
is_external id members k = member k members && not (id == k)

abbrev pub all_external : ℕ → List ℕ → List (ℕ × ℕ) → Bool
all_external id members [] = true
all_external id members ((time, sender) ∷ es) =
    is_external id members sender && all_external id members es

abbrev pub at_time : ℕ → List Setting → Log
at_time a [] = []
at_time a (s ∷ settings) = (a, s) ∷ at_time a settings

-- Every sender has a timer.
abbrev all_known : Map ℕ → List (ℕ × ℕ) → Bool
all_known timers [] = true
all_known timers ((time, sender) ∷ es) = is_some (lookup sender timers) && all_known timers es

known_timer : (o : Option ℕ) → is_some o ≡ true → (u : ℕ) × (o ≡ some u)
known_timer none e = cc
known_timer (some u) e = (u, refl)

lookup-nil : (k : ℕ) → lookup {V = ℕ} k [] ≡ none
unfolding lookup
lookup-nil k = refl

all_external-known :
    (id : ℕ) (members : List ℕ) (timers : Map ℕ) (es : List (ℕ × ℕ))
    → ((k : ℕ) → is_some (lookup k timers) ≡ is_external id members k)
    → all_external id members es ≡ true
    → all_known timers es ≡ true
all_external-known id members timers [] has h = refl
all_external-known id members timers ((time, sender) ∷ es) has h =
    let here : is_external id members sender ≡ true = ground arith in
    let rest : all_external id members es ≡ true = ground arith in
    rw (has sender, here) (all_external-known id members timers es has rest)

module _ (sets : ℕ → Bool) where
  -- The resets for the messages that are heard.
  abbrev pub run_resets : List (ℕ × ℕ) → Heartbeat → Result Log
  run_resets [] h = ok []
  run_resets ((time, sender) ∷ es) h =
      reset sets sender h >>= λ r. run_resets es r.0 >>= λ log. ok ((time, r.1) ∷ log)

  -- All that happens to the timers, which are armed at time a.
  abbrev pub life : ℕ → List (ℕ × ℕ) → Heartbeat → Result Log
  life a es h = arm sets h >>= λ s. run_resets es h >>= λ log. ok (at_time a s ++ log)

  last_set-append :
      (t : ℕ) (l m : Log) (o : Option ℕ) → last_set t (l ++ m) o ≡ last_set t m (last_set t l o)
  last_set-append t [] m o = refl
  last_set-append t ((time, s) ∷ l) m o =
      last_set-append t l m (if s.timer == t then some time else o)

  abbrev settings_of : Spec → Map ℕ → List Setting
  settings_of spec [] = []
  settings_of spec ((k, t) ∷ timers) = record { timer = t; spec = spec } ∷ settings_of spec timers

  arm_loop-all :
      (spec : Spec) (timers : Map ℕ)
      → all_timers sets timers ≡ true
      → arm_loop sets spec timers ≡ ok (settings_of spec timers)
  unfolding arm_loop
  arm_loop-all spec [] h = refl
  arm_loop-all spec ((k, t) ∷ timers) h =
      let here : sets t ≡ true = ground arith in
      let rest : all_timers sets timers ≡ true = ground arith in
      rw (here, arm_loop-all spec timers rest) refl

  armed_still :
      (a t : ℕ) (spec : Spec) (timers : Map ℕ)
      → last_set t (at_time a (settings_of spec timers)) (some a) ≡ some a
  armed_still a t spec [] = refl
  armed_still a t spec ((k, u) ∷ timers) =
      ap (last_set t (at_time a (settings_of spec timers))) (ground arith)
      ∙ armed_still a t spec timers

  armed_at :
      (a k t : ℕ) (spec : Spec) (timers : Map ℕ) (o : Option ℕ)
      → lookup k timers ≡ some t
      → last_set t (at_time a (settings_of spec timers)) o ≡ some a
  unfolding lookup
  armed_at a k t spec [] o h = cc
  armed_at a k t spec ((j, u) ∷ timers) o h = elim (Bool-cases (u == t)) [
    | inl same ↦
        ap (last_set t (at_time a (settings_of spec timers))) (rw same refl)
        ∙ armed_still a t spec timers
    | inr other ↦ elim (Bool-cases (j == k)) [
      | inl here ↦ absurd (ground (arith, rw here at h))
      | inr later ↦ armed_at a k t spec timers _ (rw later at h)
    ]
  ]

  -- What a timer shows after the later settings.
  armed_log :
      (a k t : ℕ) (spec : Spec) (timers : Map ℕ) (log : Log) (x : Option ℕ)
      → lookup k timers ≡ some t
      → last_set t log (some a) ≡ x
      → last_set t (at_time a (settings_of spec timers) ++ log) none ≡ x
  armed_log a k t spec timers log x h e =
      last_set-append t (at_time a (settings_of spec timers)) log none
      ∙ ap (last_set t log) (armed_at a k t spec timers none h)
      ∙ e

  life_returns :
      (a : ℕ) (es : List (ℕ × ℕ)) (h : Heartbeat) (log : Log)
      → all_timers sets h.listen_timers ≡ true
      → run_resets es h ≡ ok log
      → life a es h ≡ ok (at_time a (settings_of h.timer_spec h.listen_timers) ++ log)
  unfolding arm
  life_returns a es h log each returns =
      rw (arm_loop-all h.timer_spec h.listen_timers each, returns) refl

  -- The timers as the constructor left them.
  module _ (timers : Map ℕ)
      (apart : (k l t : ℕ) → lookup k timers ≡ some t → lookup l timers ≡ some t → k ≡ l)
      (set : (k t : ℕ) → lookup k timers ≡ some t → sets t ≡ true) (k t : ℕ)
      (own : lookup k timers ≡ some t) where
    abbrev IsSame : Heartbeat → Type 0
    IsSame h = (j : ℕ) → lookup j h.listen_timers ≡ lookup j timers

    touched-IsSame :
        (sender u : ℕ) (h : Heartbeat)
        → lookup sender timers ≡ some u
        → IsSame h
        → IsSame (record h { listen_timers = touch sender 0 h.listen_timers })
    touched-IsSame sender u h e same j = elim (Bool-cases (sender == j)) [
      | inl here ↦
          let f : lookup j timers ≡ some u = rw (==→eq sender j here) at e in
          rw (lookup-touch sender j 0 h.listen_timers, here, same j, f) refl
      | inr other ↦ rw (lookup-touch sender j 0 h.listen_timers, other) (same j)
    ]

    -- The timer of a sender is this one just where he is this process.
    same_timer : (sender u : ℕ) → lookup sender timers ≡ some u → (u == t) ≡ (sender == k)
    same_timer sender u e = elim (Bool-cases (sender == k)) [
      | inl here ↦
          let f : some u ≡ some t = sym (rw (==→eq sender k here) at e) ∙ own in ground (arith, f)
      | inr other ↦ elim (Bool-cases (u == t)) [
        | inl equal ↦ let g = apart sender k t (rw (==→eq u t equal) at e) own in ground (arith, g)
        | inr differ ↦ rw (other, differ) refl
      ]
    ]

    run_resets-last :
        (es : List (ℕ × ℕ)) (h : Heartbeat) (last : ℕ)
        → IsSame h
        → all_known timers es ≡ true
        → (log : Log) × (run_resets es h ≡ ok log)
          × (last_set t log (some last) ≡ some (last_heard k es last))
    unfolding reset
    run_resets-last [] h last same a = ([], refl, refl)
    run_resets-last ((time, sender) ∷ es) h last same a =
        let (u, e) = known_timer (lookup sender timers) (ground arith) in
        let h' = record h { listen_timers = touch sender 0 h.listen_timers } in
        let (log, returns, heard) =
          run_resets-last es h' (if sender == k then time else last)
            (touched-IsSame sender u h e same) (ground arith) in
        (
          (time, record { timer = u; spec = h.timer_spec }) ∷ log,
          rw (same sender, e) (rw (set sender u e, returns) refl),
          ap (last_set t log) (rw (same_timer sender u e) (ground arith)) ∙ heard,
        )

-- Where `timer_create` gives a new timer each time, and `timer_settime` succeeds on these: after the
-- constructor and `arm` at time a, whatever external members are heard afterwards, the timer of an
-- external member was last set when that member was last heard, or else at a.
pub life-last :
    (created : ℕ → Option ℕ) (sets : ℕ → Bool) (id : ℕ) (members : List ℕ)
    (timeout interval a k : ℕ) (es : List (ℕ × ℕ))
    → ((i j t : ℕ) → created i ≡ some t → created j ≡ some t → i ≡ j)
    → ((i : ℕ) → is_some (created i) ≡ true)
    → ((i t : ℕ) → created i ≡ some t → sets t ≡ true)
    → is_external id members k ≡ true
    → all_external id members es ≡ true
    → (h : Heartbeat) × (t : ℕ) × (log : Log) × (make_heartbeat created id members timeout interval
        ≡ ok h)
      × (lookup k h.listen_timers ≡ some t)
      × (life sets a es h ≡ ok log)
      × (last_set t log none ≡ some (last_heard k es a))
unfolding make_heartbeat
life-last created sets id members timeout interval a k es distinct enough valid external heard =
    let start : IsOwn created id 0 [] = record {
      index = λ k t e. cc (lookup-nil k, e);
      apart = λ k l t e f. cc (lookup-nil k, e);
    } in
    let c = create_loop-Created created id distinct members 0 [] enough start in
    let has : (j : ℕ) → is_some (lookup j c.after) ≡ is_external id members j =
      λ j. c.has j ∙ rw (lookup-nil j) (ground arith) in
    let set : (j t : ℕ) → lookup j c.after ≡ some t → sets t ≡ true =
      λ j t e. let i = c.own.index j t e in valid i.0 t i.2 in
    let h : Heartbeat = record {
      send_interval = interval;
      timer_spec = to_spec timeout;
      listen_timers = c.after;
    } in
    let (t, own) = known_timer (lookup k c.after) (has k ∙ external) in
    let (log, returns, last) =
      run_resets-last sets c.after c.own.apart set k t own es h a (λ j. refl)
        (all_external-known id members c.after es has heard) in
    (
      h,
      t,
      at_time a (settings_of sets h.timer_spec c.after) ++ log,
      rw c.returns refl,
      own,
      life_returns sets a es h log (c.each sets valid refl) returns,
      armed_log sets a k t h.timer_spec c.after log (some (last_heard k es a)) own last,
    )
