-- ===== src/Tests/Alarms.antt =====
-- The timers of process 1 for the processes 2 and 3.
use ece.Prelude.{ℕ, ◌+◌, ◌≡◌, refl, true, Option, none, some, [], ◌∷◌, arith, ok}
use ece.Map.{lookup, member}
use ece.Heartbeat.{Heartbeat, make_heartbeat}
use ece.Heartbeat.Restarts.{Log, life, last_set, life-last}

abbrev timer_number : ℕ → Option ℕ
timer_number i = some (i + 5)

life-last_example :
    (h : Heartbeat) × (t : ℕ) × (log : Log) × (make_heartbeat timer_number 1
        (1 ∷ 2 ∷ 3 ∷ [])
        10000
        2000
      ≡ ok h)
    × (lookup 3 h.listen_timers ≡ some t)
    × (life (λ t. true) 7 ((8, 3) ∷ (9, 2) ∷ []) h ≡ ok log)
    × (last_set t log none ≡ some 8)
unfolding member
life-last_example =
    life-last timer_number (λ t. true) 1 (1 ∷ 2 ∷ 3 ∷ []) 10000 2000 7 3 ((8, 3) ∷ (9, 2) ∷ [])
      (λ i j t e f. ground (arith, e, f)) (λ i. refl) (λ i t e. refl) refl refl
