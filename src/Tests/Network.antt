-- ===== src/Tests/Network.antt =====
-- The group's members, and the queue of delayed messages with natural numbers for the times.
use mathlib.Core.List.{Perm}
use ece.Prelude.{ℕ, refl, ◌≡◌, true, false, List, [], ◌∷◌, ◌++◌, arith, ltb}
use ece.Unicast.{empty_group, new_members, Delayed, Net, catch_alarm}
use ece.Unicast.Members.{IsGroup, new_members-IsGroup}
use ece.Unicast.Delays.{
  Op, sends, rings, run, accepted, all_of, IsQueue, IsOrder, run-Perm, run-IsQueue,
  catch_alarm-filter,
}

empty_group-IsGroup : IsGroup empty_group
empty_group-IsGroup = record {
  distinct = tt;
  room = omega arith;
  some_room = omega arith;
  tight = omega arith;
  joined = refl;
}

new_members-IsGroup_example : IsGroup (new_members (4001 ∷ 4002 ∷ 4001 ∷ []) empty_group)
new_members-IsGroup_example =
    new_members-IsGroup (4001 ∷ 4002 ∷ 4001 ∷ []) empty_group (omega arith) empty_group-IsGroup

abbrev at_time : ℕ → Delayed ℕ
at_time t = record { delivery_time = t; message = 1 ∷ []; dest = 4001 }

abbrev quiet_net : Net ltb
quiet_net = record { queue = []; armed = false; sent = [] }

abbrev some_ops : List (Op ℕ)
some_ops = sends false (at_time 9) ∷ sends true (at_time 5) ∷ sends false (at_time 7) ∷ rings 8 ∷ []

ltb-IsOrder : IsOrder ltb
ltb-IsOrder = record { asymm = λ a b h. ground arith; chain = λ a b c h k. ground arith }

run-Perm_example :
    Perm (all_of ltb (run ltb some_ops quiet_net)) (accepted ltb some_ops ++ all_of ltb quiet_net)
run-Perm_example = run-Perm ltb some_ops quiet_net

run-IsQueue_example : IsQueue ltb (run ltb some_ops quiet_net).queue
run-IsQueue_example = run-IsQueue ltb ltb-IsOrder some_ops quiet_net tt

abbrev two_queued : Net ltb
two_queued = record { queue = at_time 7 ∷ at_time 9 ∷ []; armed = true; sent = [] }

catch_alarm-filter_example :
    ((catch_alarm ltb 8 two_queued).sent ≡ at_time 7 ∷ [])
    × ((catch_alarm ltb 8 two_queued).queue ≡ at_time 9 ∷ [])
catch_alarm-filter_example = catch_alarm-filter ltb ltb-IsOrder 8 two_queued ((refl, tt), (tt, tt))
