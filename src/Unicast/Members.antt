-- ===== src/Unicast/Members.antt =====
-- The list of members: each stands in it once, and the writes stay inside the block.
use mathlib.Core.Path.{ap}
use ece.Prelude.{
  ==→eq, ℕ, ◌+◌, ◌*◌, ◌<◌, ◌≤◌, ◌≡◌, refl, false, ◌||◌, List, [], ◌∷◌, ◌++◌, length, length-append,
  arith, ◌==◌, Bool-cases, inl, inr,
}
use ece.Unicast.{Group, has_member, grown, new_member, new_members}

-- No member stands twice.
abbrev pub AreDistinct : List ℕ → Type 0
AreDistinct [] = Unit
AreDistinct (m ∷ ms) = (has_member m ms ≡ false) × AreDistinct ms

pub record IsGroup (g : Group) : Type 0 where
  pub distinct : AreDistinct g.members
  pub room : length g.members ≤ g.mem_alloc
  pub some_room : 0 < g.mem_alloc
  pub tight : g.mem_alloc ≤ 16 + 2 * length g.members
  pub joined : g.joins ≡ g.members

has_member-append :
    (k m : ℕ) (ms : List ℕ) → has_member k (ms ++ m ∷ []) ≡ (has_member k ms || k == m)
unfolding has_member
has_member-append k m [] = ground arith
has_member-append k m (n ∷ ms) = ground (arith, has_member-append k m ms)

AreDistinct-append :
    (m : ℕ) (ms : List ℕ) → has_member m ms ≡ false → AreDistinct ms → AreDistinct (ms ++ m ∷ [])
unfolding has_member
AreDistinct-append m [] h d = (refl, tt)
AreDistinct-append m (n ∷ ms) h d =
    ground (arith, has_member-append n m ms, AreDistinct-append m ms)

new_member-IsGroup :
    (m : ℕ) (g : Group) → length g.members < 500000000 → IsGroup g → IsGroup (new_member m g)
unfolding new_member grown
new_member-IsGroup m g h i = elim (Bool-cases (has_member m g.members)) [
  | inl old ↦ rw old i
  | inr new ↦ rw new (record {
    distinct = AreDistinct-append m g.members new i.distinct;
    room = ground (arith, length-append g.members (m ∷ []), i.room, i.some_room, i.tight);
    some_room = ground (arith, i.some_room, i.tight);
    tight = ground (arith, length-append g.members (m ∷ []), i.tight);
    joined = rw i.joined refl;
  })
]

new_member-length : (m : ℕ) (g : Group) → length (new_member m g).members ≤ length g.members + 1
unfolding new_member
new_member-length m g = ground (arith, length-append g.members (m ∷ []))

-- Whatever members are announced, in any order and however often, up to half a billion: no member
-- stands in the list twice, every one was written inside the block of memory, and `mcast_join` was
-- called for each of them once.
pub new_members-IsGroup :
    (ms : List ℕ) (g : Group)
    → length g.members + length ms < 500000000
    → IsGroup g
    → IsGroup (new_members ms g)
unfolding new_members
new_members-IsGroup [] g h i = i
new_members-IsGroup (m ∷ ms) g h i =
    new_members-IsGroup ms (new_member m g) (omega (arith, new_member-length m g))
      (new_member-IsGroup m g (omega arith) i)

new_member-has :
    (k m : ℕ) (g : Group)
    → has_member k (new_member m g).members ≡ (has_member k g.members || k == m)
unfolding new_member
new_member-has k m g = ground (
  arith,
  has_member-append k m g.members,
  ==→eq k m,
  ap (λ (x : ℕ). has_member x g.members) {x = k} {y = m},
)

-- The members after that are those of before and those announced.
pub new_members-has :
    (k : ℕ) (ms : List ℕ) (g : Group)
    → has_member k (new_members ms g).members ≡ (has_member k g.members || has_member k ms)
unfolding new_members has_member
new_members-has k [] g = ground arith
new_members-has k (m ∷ ms) g =
    ground (arith, new_members-has k ms (new_member m g), new_member-has k m g)
