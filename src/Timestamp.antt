-- ===== src/Timestamp.antt =====
-- MP1/timestamp: vector timestamps. A timestamp maps process ids to counters; `compare` and
-- `update` read the other timestamp by `operator[]`, which inserts the missing keys into it.
pub mod Compare
pub mod Update
use ece.Prelude.{
  ℕ, ◌≡◌, Bool, List, [], ◌∷◌, true, false, ◌&&◌, ◌+◌, not, ltb, ◌==◌, if◌then◌else◌, arith,
}
use ece.Int32.{slt, inc, sub}
use ece.Map.{Map, IntSet, insert, get_or, touch}

pub data CausalityRelation : Type 0 where
  before concurrent after : CausalityRelation

pub record Timestamp : Type 0 where
  pub own_id : ℕ
  pub timestamp : Map ℕ
  pub diff : Map ℕ

-- The loop of the constructors over an array and over a set of ids.
unfoldable pub zeros : List ℕ → Map ℕ → Map ℕ
zeros [] m = m
zeros (i ∷ ids) m = zeros ids (insert i 0 m)

unfoldable pub of_members : ℕ → List ℕ → Timestamp
unfolding zeros
of_members id ids = record { own_id = id; timestamp = zeros ids []; diff = [] }

unfoldable pub of_map : ℕ → Map ℕ → Timestamp
of_map id m = record { own_id = id; timestamp = m; diff = [] }

-- `timestamp[ownId]++`
unfoldable pub step : Timestamp → Timestamp
step t = record t { timestamp = insert t.own_id (inc (get_or t.own_id 0 t.timestamp)) t.timestamp }

-- The answer after the loop.
unfoldable pub verdict : ℕ → ℕ → CausalityRelation
verdict less greater = if ltb 0 less then before else if ltb 0 greater then after else concurrent

-- The loop of `compare` over the entries not yet reached: the counts so far, and the map of the
-- other timestamp, which is handed back with the keys that `operator[]` inserted.
unfoldable pub compare_loop : Map ℕ → ℕ → ℕ → Map ℕ → CausalityRelation × Map ℕ
compare_loop [] less greater t = (verdict less greater, t)
compare_loop ((k, v) ∷ m) less greater t =
    let t' = touch k 0 t in
    let on_less = compare_loop m (less + 1) greater t' in
    let on_greater = compare_loop m less (greater + 1) t' in
    let on_equal = compare_loop m less greater t' in
    if slt v (get_or k 0 t)
    then (if ltb 0 greater then (concurrent, t') else on_less)
    else if slt (get_or k 0 t) v
    then (if ltb 0 less then (concurrent, t') else on_greater)
    else on_equal

unfoldable pub compare : Timestamp → Timestamp → CausalityRelation × Timestamp
compare a t =
    let (r, m) = compare_loop a.timestamp 0 0 t.timestamp in (r, record t { timestamp = m })

-- The loop of `update` over the entries not yet reached. An entry is overwritten where it stands,
-- and a new entry of `diff` is the difference to the old value.
unfoldable pub update_loop : ℕ → Map ℕ → Map ℕ → Map ℕ → Map ℕ × Map ℕ × Map ℕ
update_loop own [] diff t = ([], diff, t)
update_loop own ((k, v) ∷ m) diff t =
    let other = get_or k 0 t in
    let (m', diff', t') = update_loop own m (insert k (sub other v) diff) (touch k 0 t) in
    ((k, if not (k == own) && slt v other then other else v) ∷ m', diff', t')

-- The updated timestamp, and the other one.
unfoldable pub update : Timestamp → Timestamp → Timestamp × Timestamp
update a t =
    let (m, diff, m') = update_loop a.own_id a.timestamp a.diff t.timestamp in
    (record a { timestamp = m; diff = diff }, record t { timestamp = m' })
