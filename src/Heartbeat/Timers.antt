-- ===== src/Heartbeat/Timers.antt =====
-- Which timers a Heartbeat has.
use ece.Prelude.{
  ℕ, ◌+◌, ◌*◌, ◌<◌, ◌≡◌, ◌⊎◌, refl, sym, ◌∙◌, Bool, true, false, not, ◌&&◌, ◌||◌, Option, none,
  some, List, [], ◌∷◌, arith, ◌==◌, ==→eq, Bool-cases, inl, inr, Result, ok,
}
use ece.Map.{Map, lookup, insert, lookup-insert, member}
use ece.Heartbeat.{add_timer, create_loop, to_spec}

-- The spec of a timeout is its number of nanoseconds, and its second part is below a second, as
-- `timer_settime` wants it.
pub to_spec-valid :
    (timeout : ℕ)
    → ((to_spec timeout).nsec < 1000000000)
      × ((to_spec timeout).sec * 1000000000 + (to_spec timeout).nsec ≡ timeout * 1000000)
unfolding to_spec
to_spec-valid timeout = (omega arith, omega arith)

abbrev pub is_some : Option ℕ → Bool
is_some none = false
is_some (some t) = true

-- All timers of the map pass the test.
abbrev pub all_timers : (ℕ → Bool) → Map ℕ → Bool
all_timers f [] = true
all_timers f ((k, t) ∷ timers) = f t && all_timers f timers

all_timers-insert :
    (f : ℕ → Bool) (k t : ℕ) (timers : Map ℕ)
    → f t ≡ true
    → all_timers f timers ≡ true
    → all_timers f (insert k t timers) ≡ true
unfolding insert
all_timers-insert f k t [] h a = ground arith
all_timers-insert f k t ((j, u) ∷ timers) h a = ground (arith, all_timers-insert f k t timers h)

module _ (created : ℕ → Option ℕ) (id : ℕ) where
  -- Every entry is a timer created before the i-th, and different entries have different timers.
  pub record IsOwn (i : ℕ) (timers : Map ℕ) : Type 0 where
    pub index : (k t : ℕ) → lookup k timers ≡ some t → (j : ℕ) × (j < i) × (created j ≡ some t)
    pub apart : (k l t : ℕ) → lookup k timers ≡ some t → lookup l timers ≡ some t → k ≡ l

  module _ (distinct : (i j t : ℕ) → created i ≡ some t → created j ≡ some t → i ≡ j) where
    -- The new timer is not among those of before.
    fresh :
        (i l u : ℕ) (timers : Map ℕ)
        → IsOwn i timers
        → created i ≡ some u
        → lookup l timers ≡ some u
        → ⊥
    fresh i l u timers h new e =
        let (j, below, old) = h.index l u e in let same = distinct j i u old new in omega arith

    -- An entry is the new one or an old one.
    entry :
        (i member k t u : ℕ) (timers : Map ℕ)
        → created i ≡ some t
        → lookup k (insert member t timers) ≡ some u
        → ((member ≡ k) × (created i ≡ some u)) ⊎ (lookup k timers ≡ some u)
    entry i member k t u timers new e = elim (Bool-cases (member == k)) [
      | inl here ↦ inl (==→eq member k here, new ∙ rw (lookup-insert member k t timers, here) at e)
      | inr other ↦ inr (rw (lookup-insert member k t timers, other) at e)
    ]

    insert-IsOwn :
        (i member t : ℕ) (timers : Map ℕ)
        → created i ≡ some t
        → IsOwn i timers
        → IsOwn (i + 1) (insert member t timers)
    insert-IsOwn i member t timers new h = record {
      index = λ k u e. elim (entry i member k t u timers new e) [
        | inl here ↦ (i, omega arith, here.1)
        | inr old ↦ let (j, below, o) = h.index k u old in (j, omega arith, o)
      ];
      apart = λ k l u e f. elim (entry i member k t u timers new e) [
        | inl here ↦ elim (entry i member l t u timers new f) [
          | inl here' ↦ sym here.0 ∙ here'.0
          | inr old ↦ absurd (fresh i l u timers h here.1 old)
        ]
        | inr old ↦ elim (entry i member l t u timers new f) [
          | inl here ↦ absurd (fresh i k u timers h here.1 old)
          | inr old' ↦ h.apart k l u old old'
        ]
      ];
    }

    -- What the constructor's loop makes of a list of members.
    pub record Created (i : ℕ) (members : List ℕ) (timers : Map ℕ) (r : Result (Map ℕ))
        : Type 0 where
      pub after : Map ℕ
      pub count : ℕ
      pub returns : r ≡ ok after
      pub own : IsOwn count after
      pub has :
          (k : ℕ)
          → is_some (lookup k after)
            ≡ ((member k members && not (id == k)) || is_some (lookup k timers))
      pub each :
          (f : ℕ → Bool)
          → ((j t : ℕ) → created j ≡ some t → f t ≡ true)
          → all_timers f timers ≡ true
          → all_timers f after ≡ true

    is_some-insert :
        (new k t : ℕ) (timers : Map ℕ)
        → is_some (lookup k (insert new t timers)) ≡ (new == k || is_some (lookup k timers))
    is_some-insert new k t timers = rw (lookup-insert new k t timers) (ground arith)

    pub create_loop-Created :
        (members : List ℕ) (i : ℕ) (timers : Map ℕ)
        → ((j : ℕ) → is_some (created j) ≡ true)
        → IsOwn i timers
        → Created i members timers (create_loop created id members i timers)
    unfolding create_loop add_timer member
    create_loop-Created [] i timers enough h = record {
      after = timers;
      count = i;
      returns = refl;
      own = h;
      has = λ k. refl;
      each = λ f h a. a;
    }
    create_loop-Created (m ∷ members) i timers enough h = elim (Bool-cases (id == m)) [
      | inl own ↦
          let r = create_loop-Created members i timers enough h in
          rw own (record {
            after = r.after;
            count = r.count;
            returns = r.returns;
            own = r.own;
            has = λ k. ground (arith, r.has k, ==→eq id m);
            each = r.each;
          })
      | inr other ↦
          let (t, new) = some_timer (created i) (enough i) in
          let r =
            create_loop-Created members (i + 1) (insert m t timers) enough
              (insert-IsOwn i m t timers new h) in
          rw other (record {
            after = r.after;
            count = r.count;
            returns = rw new r.returns;
            own = r.own;
            has = λ k. ground (arith, r.has k, is_some-insert m k t timers, ==→eq m k);
            each = λ f g a. r.each f g (all_timers-insert f m t timers (g i t new) a);
          })
    ]
      where
        some_timer : (o : Option ℕ) → is_some o ≡ true → (t : ℕ) × (o ≡ some t)
        some_timer none e = cc
        some_timer (some t) e = (t, refl)
