-- ===== src/Heartbeat.antt =====
-- MP1/heartbeat/heartbeat.cc: Heartbeat, the timers by which a process notices that others have
-- failed. What `timer_create` returns at each call, and whether `timer_settime` succeeds, is a
-- parameter.
pub mod Timers
pub mod Restarts
use ece.Prelude.{
  ℕ, zero, suc, ◌+◌, ◌*◌, ◌/◌, ◌%◌, Bool, true, false, Option, none, some, List, [], ◌∷◌, ◌==◌,
  if◌then◌else◌, Result, ok, fault, ◌>>=◌, exited,
}
use ece.Map.{Map, insert, touch, get_or}

-- `itimerspec`, with the same interval and value
pub record Spec : Type 0 where
  pub sec : ℕ
  pub nsec : ℕ

-- From milliseconds.
unfoldable pub to_spec : ℕ → Spec
to_spec timeout = record { sec = timeout / 1000; nsec = timeout % 1000 * 1000000 }

pub record Heartbeat : Type 0 where
  pub send_interval : ℕ
  pub timer_spec : Spec
  pub listen_timers : Map ℕ

-- `timer_settime` of a timer with the spec
pub record Setting : Type 0 where
  pub timer : ℕ
  pub spec : Spec

module _ (created : ℕ → Option ℕ) where
  unfoldable pub add_timer : (Map ℕ → Result (Map ℕ)) → ℕ → Option ℕ → Map ℕ → Result (Map ℕ)
  add_timer rest member none timers = fault exited
  add_timer rest member (some timer) timers = rest (insert member timer timers)

  -- The loop over the members, where i timers were created before.
  unfoldable pub create_loop : ℕ → List ℕ → ℕ → Map ℕ → Result (Map ℕ)
  create_loop id [] i timers = ok timers
  create_loop id (member ∷ members) i timers =
      let own = create_loop id members i timers in
      let other = add_timer (create_loop id members (i + 1)) member (created i) timers in
      if id == member then own else other

  unfoldable pub make_heartbeat : ℕ → List ℕ → ℕ → ℕ → Result Heartbeat
  make_heartbeat id member_ids timeout send_interval = create_loop id member_ids 0 [] >>= λ timers.
      ok (record {
        send_interval = send_interval;
        timer_spec = to_spec timeout;
        listen_timers = timers;
      })

module _ (sets : ℕ → Bool) where
  unfoldable pub arm_loop : Spec → Map ℕ → Result (List Setting)
  arm_loop spec [] = ok []
  arm_loop spec ((id, timer) ∷ timers) =
      let rest = arm_loop spec timers in
      if sets timer
      then (rest >>= λ settings. ok (record { timer = timer; spec = spec } ∷ settings))
      else fault exited

  unfoldable pub arm : Heartbeat → Result (List Setting)
  arm h = arm_loop h.timer_spec h.listen_timers

  -- `listenTimers[id]` inserts the timer 0 for a process that has none.
  unfoldable pub reset : ℕ → Heartbeat → Result (Heartbeat × Setting)
  reset id h =
      let timer = get_or id 0 h.listen_timers in
      if sets timer
      then ok (
        record h { listen_timers = touch id 0 h.listen_timers },
        record { timer = timer; spec = h.timer_spec },
      )
      else fault exited
