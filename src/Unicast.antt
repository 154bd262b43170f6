-- ===== src/Unicast.antt =====
-- MP1/unicast.cc: the list of the group's members, and the queue of the delayed messages. The times
-- are doubles: their `<` is a parameter. Memory never runs out. For how long the alarm is set is left
-- out: it may ring at any time.
pub mod Members
pub mod Delays
pub mod GroupFile
use ece.Prelude.{
  ℕ, ◌+◌, ◌*◌, ◌%◌, Bool, true, false, ◌||◌, not, List, [], ◌∷◌, ◌++◌, length, ◌==◌, if◌then◌else◌,
}
use ece.Int32.{word}

-- `mcast_members`, whose length is `mcast_num_members`, the size of its block in members, and the
-- calls of `mcast_join`.
pub record Group : Type 0 where
  pub members : List ℕ
  pub mem_alloc : ℕ
  pub joins : List ℕ

-- The start of `unicast_init`.
abbrev pub empty_group : Group
empty_group = record { members = []; mem_alloc = 16; joins = [] }

unfoldable pub has_member : ℕ → List ℕ → Bool
has_member member [] = false
has_member member (m ∷ ms) = member == m || has_member member ms

-- The size of the block before the write of a new member.
unfoldable pub grown : Group → ℕ
grown g = if length g.members == g.mem_alloc then g.mem_alloc * 2 % word else g.mem_alloc

unfoldable pub new_member : ℕ → Group → Group
new_member member g = if has_member member g.members then g else record {
  members = g.members ++ member ∷ [];
  mem_alloc = grown g;
  joins = g.joins ++ member ∷ [];
}

-- The members of the group file, and those who announce themselves.
unfoldable pub new_members : List ℕ → Group → Group
new_members [] g = g
new_members (m ∷ ms) g = new_members ms (new_member m g)

-- `struct message`
pub record Delayed (Time : Type 0) : Type 0 where
  pub delivery_time : Time
  pub message : List ℕ
  pub dest : ℕ

module _ {Time : Type 0} (is_less : Time → Time → Bool) where
  unfoldable pub insert_message : Delayed Time → List (Delayed Time) → List (Delayed Time)
  insert_message m [] = m ∷ []
  insert_message m (d ∷ queue) =
      if is_less d.delivery_time m.delivery_time then d ∷ insert_message m queue else m ∷ d ∷ queue

  -- The loop of `catch_alarm`: what is sent, and the queue behind it. `x <= now` holds where
  -- `now < x` does not.
  unfoldable pub send_due : Time → List (Delayed Time) → List (Delayed Time) × List (Delayed Time)
  send_due now [] = ([], [])
  send_due now (d ∷ queue) =
      let (sent, rest) = send_due now queue in
      if not (is_less now d.delivery_time) then (d ∷ sent, rest) else ([], d ∷ queue)

  -- Is `newmsg == head` after the insertion?
  unfoldable pub goes_first : Delayed Time → List (Delayed Time) → Bool
  goes_first m [] = true
  goes_first m (d ∷ queue) = not (is_less d.delivery_time m.delivery_time)

  abbrev pub is_waiting : List (Delayed Time) → Bool
  is_waiting [] = false
  is_waiting (d ∷ queue) = true

  -- The queue, whether the alarm is set, and what was sent so far.
  pub record Net : Type 0 where
    pub queue : List (Delayed Time)
    pub armed : Bool
    pub sent : List (Delayed Time)

  -- The alarm rings once: it is set again where something is left.
  unfoldable pub catch_alarm : Time → Net → Net
  catch_alarm now n =
      let (due, rest) = send_due now n.queue in
      record { queue = rest; armed = is_waiting rest; sent = n.sent ++ due }

  -- `usend` after the throw of the dice: is the message dropped?
  unfoldable pub usend_message : Bool → Delayed Time → Net → Net
  usend_message true m n = n
  usend_message false m n = record n {
    queue = insert_message m n.queue;
    armed = if goes_first m n.queue then true else n.armed;
  }
