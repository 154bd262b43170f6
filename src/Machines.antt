-- ===== src/Machines.antt =====
-- MP2/src/replica/replica_handler.cpp: the state machines of one replica with their request queues,
-- as a replica handles them that is not the leader, behind the first lines that look for one. A
-- write is queued, waits for its turn, is performed and is then taken from the queue.
pub mod Bank
pub mod Steps
pub mod Tables
pub mod Texts
pub mod Turns
pub mod Writes
use ece.Prelude.{
  Result, ok, fault, over_read, ℕ, ◌+◌, ◌%◌, Bool, true, false, ◌&&◌, Option, none, some, List, [],
  ◌∷◌, ◌++◌, ◌==◌, if◌then◌else◌,
}
use ece.Int32.{word, inc}
use ece.Decimal.{print_int}

abbrev pub Text : Type 0
Text = List ℕ

unfoldable pub same_text : Text → Text → Bool
same_text [] [] = true
same_text [] (c ∷ t) = false
same_text (c ∷ s) [] = false
same_text (c ∷ s) (e ∷ t) = c == e && same_text s t

-- `StateMachine` with its factory: a state for the parameter, the state and the answer after an
-- operation, and the state as a text.
pub record Machine : Type 1 where
  pub State : Type 0
  pub make : Text → State
  pub apply : Text → State → State × Text
  pub get_state : State → Text

-- `StringMachine`
abbrev pub string_machine : Machine
string_machine = record {
  State = Text;
  make = λ t. t;
  apply = λ operation s. (operation, operation);
  get_state = λ s. s;
}

-- Tables by name, as `boost::unordered_map` and `std::map` are used here.
module _ {ℓ} {V : Type ℓ} where
  unfoldable pub find : Text → List (Text × V) → Option V
  find name [] = none
  find name ((k, v) ∷ t) = if same_text k name then some v else find name t

  -- `t[name] = v`
  unfoldable pub put : Text → V → List (Text × V) → List (Text × V)
  put name v [] = (name, v) ∷ []
  put name v ((k, w) ∷ t) = if same_text k name then (k, v) ∷ t else (k, w) ∷ put name v t

  -- `t.erase(name)`: a name stands in the table once.
  unfoldable pub erase : Text → List (Text × V) → List (Text × V)
  erase name [] = []
  erase name ((k, w) ∷ t) = if same_text k name then erase name t else (k, w) ∷ erase name t

pub data ErrorType : Type 0 where
  not_found already_exists not_leader : ErrorType

-- What a call returns, or the error that it throws.
pub data Reply {ℓ} (A : Type ℓ) : Type ℓ where
  done : A → Reply A
  throws : ErrorType → Reply A

pub record Request : Type 0 where
  pub is_write : Bool
  pub text : Text

-- What `str(format("%1% %2% %3%") % rmid % client % name)` is.
unfoldable pub read_text : ℕ → ℕ → Text → Text
read_text rmid client name = print_int rmid ++ 32 ∷ (print_int client ++ 32 ∷ name)

abbrev pub is_read : Text → Request → Bool
is_read t r = if r.is_write then false else same_text r.text t

-- The first request that matches goes.
unfoldable pub erase_read : Text → List Request → List Request
erase_read t [] = []
erase_read t (r ∷ q) = if is_read t r then q else r ∷ erase_read t q

abbrev pub or_empty : Option (List Request) → List Request
or_empty none = []
or_empty (some q) = q

-- `requestQueue[name][0] == p` for a write, where an empty queue has no such element. Requests are
-- compared by their kinds and texts.
abbrev pub is_next : Text → List Request → Bool
is_next operation [] = false
is_next operation (r ∷ q) = r.is_write && same_text r.text operation

module _ (machine : Machine) where
  pub record Store : Type 0 where
    pub machines : List (Text × machine.State)
    pub queue_len : ℕ
    pub bw_utilization : ℕ
    pub mem_utilization : ℕ
    pub request_queue : List (Text × List Request)

  abbrev pub queue_of : Text → Store → List Request
  queue_of name s = or_empty (find name s.request_queue)

  abbrev pub set_queue : Text → List Request → Store → Store
  set_queue name q s = record s { request_queue = put name q s.request_queue }

  abbrev pub is_some : Option machine.State → Bool
  is_some none = false
  is_some (some m) = true

  unfoldable pub state_exists : Text → Store → Bool
  state_exists name s = is_some (find name s.machines)

  -- `queueLen--`
  abbrev pub dec : ℕ → ℕ
  dec n = (n + 4294967295) % word

  unfoldable pub create : Text → Text → Store → Reply Store
  create name initial_state s =
      if state_exists name s
      then throws already_exists
      else done (record s {
        machines = put name (machine.make initial_state) s.machines;
        queue_len = dec (inc s.queue_len);
        mem_utilization = inc s.mem_utilization;
        request_queue = put name (queue_of name s) s.request_queue;
      })

  -- `apply` up to the wait.
  unfoldable pub enqueue_write : Text → Text → Store → Reply Store
  enqueue_write name operation s =
      if state_exists name s
      then done
          (set_queue name (queue_of name s ++ record { is_write = true; text = operation } ∷ []) s)
      else throws not_found

  -- `machines[name]->apply(operation)` with the counters around it, where the machine's state is m.
  unfoldable pub perform_write : Text → machine.State → Text → Store → Store
  perform_write operation m name s = record s {
    machines = put name (machine.apply operation m).0 s.machines;
    queue_len = dec (inc s.queue_len);
    bw_utilization = inc s.bw_utilization;
  }

  -- `requestQueue[name].erase(requestQueue[name].begin())`
  unfoldable pub dequeue_from : Text → Store → List Request → Result Store
  dequeue_from name s [] = fault over_read
  dequeue_from name s (r ∷ rest) = ok (set_queue name rest s)

  unfoldable pub dequeue : Text → Store → Result Store
  dequeue name s = dequeue_from name s (queue_of name s)

  -- The end of `prepareGetState`, where replica `where_to` was chosen for the client.
  unfoldable pub enqueue_read : ℕ → ℕ → Text → Store → Store
  enqueue_read where_to client name s =
      set_queue name
        (queue_of name s ++ record { is_write = false; text = read_text where_to client name } ∷ [])
        s

  unfoldable pub notify_finished_reading : ℕ → ℕ → Text → Store → Store
  notify_finished_reading rmid client name s =
      set_queue name (erase_read (read_text rmid client name) (queue_of name s)) s

  abbrev pub read_of : Option machine.State → Store → Reply (Store × Text)
  read_of none s = throws not_found
  read_of (some m) s = done (
    record s { queue_len = dec (inc s.queue_len); bw_utilization = inc s.bw_utilization },
    machine.get_state m,
  )

  -- `getState` up to the call of the leader.
  unfoldable pub get_state : Text → Store → Reply (Store × Text)
  get_state name s = read_of (find name s.machines) s

  -- `remove`, on a replica that is not the leader.
  unfoldable pub remove : Text → Store → Reply Store
  remove name s =
      if state_exists name s
      then done (record s {
        machines = erase name s.machines;
        queue_len = dec (inc s.queue_len);
        mem_utilization = dec s.mem_utilization;
        request_queue = erase name s.request_queue;
      })
      else throws not_found
