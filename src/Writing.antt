-- ===== src/Writing.antt =====
-- MP2/src/replica/replica_handler.cpp: `apply` as the leader makes it, on the other replicas and then
-- on itself. Calls come one after the other, so that a wait for another request of the queue has no
-- end. A replica that runs is an entry of the map, and the others know that they are not the leader.
pub mod Agreement
pub mod Turn
use ece.Prelude.{
  ℕ, zero, suc, ◌+◌, Bool, true, false, ◌&&◌, Option, none, some, List, [], ◌∷◌, ◌==◌,
  if◌then◌else◌, Result, ok, fault, ◌>>=◌, not_running, null_dereference, blocked,
}
use ece.Map.{lookup, insert}
use ece.Machines.{
  Text, same_text, find, Machine, Store, Request, Reply, done, throws, queue_of, enqueue_write,
  perform_write, dequeue, is_next,
}
use ece.Placement.{Stores}

module _ (machine : Machine) (name operation : Text) where
  -- `result = machines[name]->apply(operation)`, and the dequeuing of the write.
  unfoldable pub take_turn : Option machine.State → Store machine → Result (Store machine × Text)
  take_turn none s = fault null_dereference
  take_turn (some m) s = dequeue machine name (perform_write machine operation m name s) >>= λ s.
      ok (s, (machine.apply operation m).1)

  -- What follows the wait.
  unfoldable pub await_turn : Store machine → Result (Store machine × Text)
  await_turn s =
      if is_next operation (queue_of machine name s)
      then take_turn (find name s.machines) s
      else fault blocked

  unfoldable pub apply_reply : Reply (Store machine) → Result (Reply (Store machine × Text))
  apply_reply (throws e) = ok (throws e)
  apply_reply (done s) = await_turn s >>= λ r. ok (done r)

  -- `apply` of a replica that is not the leader.
  unfoldable pub apply_here : Store machine → Result (Reply (Store machine × Text))
  apply_here s = apply_reply (enqueue_write machine name operation s)

  -- The call of `apply` on replica i, whose errors are dropped.
  unfoldable pub told : ℕ → Stores machine → Reply (Store machine × Text) → Stores machine
  told i c (done (s, result)) = insert i s c
  told i c (throws e) = c

  unfoldable pub tell : ℕ → Stores machine → Option (Store machine) → Result (Stores machine)
  tell i c none = ok c
  tell i c (some s) = apply_here s >>= λ r. ok (told i c r)

  -- The loop over the other replicas.
  unfoldable pub tell_loop : ℕ → ℕ → ℕ → Stores machine → Result (Stores machine)
  tell_loop zero i id c = ok c
  tell_loop (suc rounds) i id c =
      (if i == id then ok c else tell i c (lookup i c)) >>= tell_loop rounds (i + 1) id

  -- The leader's own turn.
  unfoldable pub own_turn :
      ℕ → Stores machine → Option (Store machine) → Result (Stores machine × Reply Text)
  own_turn id c none = fault not_running
  own_turn id c (some s) =
      take_turn (find name s.machines) s >>= λ r. ok (insert id r.0 c, done r.1)

  unfoldable pub lead :
      ℕ → ℕ → Stores machine → Reply (Store machine) → Result (Stores machine × Reply Text)
  lead n id c (throws e) = ok (c, throws e)
  lead n id c (done s) =
      if is_next operation (queue_of machine name s)
      then (tell_loop n 0 id (insert id s c) >>= λ c. own_turn id c (lookup id c))
      else fault blocked

  -- `apply` of the leader, replica `id` of n.
  unfoldable pub apply_all :
      ℕ → ℕ → Stores machine → Option (Store machine) → Result (Stores machine × Reply Text)
  apply_all n id c none = fault not_running
  apply_all n id c (some s) = lead n id c (enqueue_write machine name operation s)

  unfoldable pub answered :
      ℕ → Stores machine → Reply (Store machine × Text) → Stores machine × Reply Text
  answered id c (done (s, result)) = (insert id s c, done result)
  answered id c (throws e) = (c, throws e)

  -- `apply` of replica `id`, which knows a leader.
  unfoldable pub apply_at :
      ℕ → ℕ → ℕ → Stores machine → Option (Store machine) → Result (Stores machine × Reply Text)
  apply_at n id leader c none = fault not_running
  apply_at n id leader c (some s) =
      if leader == id
      then apply_all n id c (some s)
      else (apply_here s >>= λ r. ok (answered id c r))
