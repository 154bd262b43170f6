-- ===== src/Unicast/GroupFile.antt =====
-- MP1/unicast.cc: how `unicast_init` reads the group file, to which every process has appended its id,
-- and whom it announces itself to. Reading does not fail.
use ece.Prelude.{
  ℕ, zero, suc, ◌+◌, ◌-◌, ◌*◌, ◌<◌, ◌≡◌, ◌≢◌, refl, sym, ap, ◌∙◌, List, [], ◌∷◌, ◌++◌, append-nil,
  length, All, arith, ◌==◌, if◌then◌else◌, Bool-cases, inl, inr, Result, ok, fault, out_of_fuel,
}
use ece.Int32.{IsInt}
use ece.Message.Codec.{integer_bytes}
use ece.Unicast.{Group, new_member, new_members}

-- The first n bytes, and those behind them.
unfoldable pub first : ℕ → List ℕ → List ℕ
first zero s = []
first (suc n) [] = []
first (suc n) (c ∷ s) = c ∷ first n s

unfoldable pub behind : ℕ → List ℕ → List ℕ
behind zero s = s
behind (suc n) [] = []
behind (suc n) (c ∷ s) = behind n s

-- The ints that begin in the first n bytes of the buffer.
unfoldable pub ints_in : ℕ → List ℕ → List ℕ
ints_in zero buf = []
ints_in (suc n) (a ∷ b ∷ c ∷ d ∷ buf) =
    (a + 256 * b + 65536 * c + 16777216 * d) ∷ ints_in (suc n - 4) buf
ints_in (suc n) buf = []

-- The loop over the blocks of the file. A block that is not full leaves older bytes in the buffer.
unfoldable pub read_group : ℕ → List ℕ → List ℕ → Group → Result Group
read_group zero file buf g = fault out_of_fuel
read_group (suc fuel) file buf g =
    let block = first 128 file in
    let n = length block in
    let buf = block ++ behind n buf in
    let g = new_members (ints_in n buf) g in
    let rest = read_group fuel (behind 128 file) buf g in if n == 128 then rest else ok g

-- The empty messages that are sent to the other members.
unfoldable pub announced : ℕ → List ℕ → List ℕ
announced my_id [] = []
announced my_id (m ∷ ms) = let rest = announced my_id ms in if m == my_id then rest else m ∷ rest

-- The file after some processes have written their ids.
abbrev pub group_bytes : List ℕ → List ℕ
group_bytes [] = []
group_bytes (id ∷ ids) = integer_bytes id ++ group_bytes ids

length-group_bytes : (ids : List ℕ) → length (group_bytes ids) ≡ 4 * length ids
unfolding integer_bytes
length-group_bytes [] = omega arith
length-group_bytes (id ∷ ids) = omega (arith, length-group_bytes ids)

four_more : (k : ℕ) → 4 * suc k ≡ suc (suc (suc (suc (4 * k))))
four_more k = omega arith

first-group_bytes :
    (k : ℕ) (ids : List ℕ) → first (4 * k) (group_bytes ids) ≡ group_bytes (first k ids)
unfolding first integer_bytes
first-group_bytes zero ids = refl
first-group_bytes (suc k) [] = rw (four_more k) refl
first-group_bytes (suc k) (id ∷ ids) = rw (four_more k, first-group_bytes k ids) refl

behind-group_bytes :
    (k : ℕ) (ids : List ℕ) → behind (4 * k) (group_bytes ids) ≡ group_bytes (behind k ids)
unfolding behind integer_bytes
behind-group_bytes zero ids = refl
behind-group_bytes (suc k) [] = rw (four_more k) refl
behind-group_bytes (suc k) (id ∷ ids) = rw (four_more k, behind-group_bytes k ids) refl

-- The ints of a block of ids, whatever stands behind them in the buffer.
ints_in-group_bytes :
    (ids stale : List ℕ) → All IsInt ids → ints_in (4 * length ids) (group_bytes ids ++ stale) ≡ ids
unfolding ints_in integer_bytes
ints_in-group_bytes [] stale h = refl
ints_in-group_bytes (id ∷ ids) stale h =
    let less : suc (suc (suc (suc (4 * length ids)))) - 4 ≡ 4 * length ids = omega arith in
    rw (four_more (length ids), less, ints_in-group_bytes ids stale h.1)
      (ap (λ (n : ℕ). n ∷ ids) (omega (arith, h.0)))

new_members-append :
    (xs ys : List ℕ) (g : Group) → new_members ys (new_members xs g) ≡ new_members (xs ++ ys) g
unfolding new_members
new_members-append [] ys g = refl
new_members-append (x ∷ xs) ys g = new_members-append xs ys (new_member x g)

first-behind : (k : ℕ) (ids : List ℕ) → first k ids ++ behind k ids ≡ ids
unfolding first behind
first-behind zero ids = refl
first-behind (suc k) [] = refl
first-behind (suc k) (id ∷ ids) = ap (λ (l : List ℕ). id ∷ l) (first-behind k ids)

All-first : (k : ℕ) (ids : List ℕ) → All IsInt ids → All IsInt (first k ids)
unfolding first
All-first zero ids h = tt
All-first (suc k) [] h = tt
All-first (suc k) (id ∷ ids) h = (h.0, All-first k ids h.1)

All-behind : (k : ℕ) (ids : List ℕ) → All IsInt ids → All IsInt (behind k ids)
unfolding behind
All-behind zero ids h = h
All-behind (suc k) [] h = tt
All-behind (suc k) (id ∷ ids) h = All-behind k ids h.1

length-first : (k : ℕ) (ids : List ℕ) → length (first k ids) + length (behind k ids) ≡ length ids
unfolding first behind
length-first zero ids = omega arith
length-first (suc k) [] = omega arith
length-first (suc k) (id ∷ ids) = omega (arith, length-first k ids)

first_short : (k : ℕ) (ids : List ℕ) → length (first k ids) ≢ k → behind k ids ≡ []
unfolding first behind
first_short zero ids n = absurd (n refl)
first_short (suc k) [] n = refl
first_short (suc k) (id ∷ ids) n = first_short k ids (λ e. n (ap suc e))

-- The blocks of 128 bytes are read until one is not full, which is after at most as many rounds as the
-- file has ids and one more. The members are then those of before and all that the file names.
pub read_group-group_bytes :
    (fuel : ℕ) (ids buf : List ℕ) (g : Group)
    → All IsInt ids
    → length ids < fuel
    → read_group fuel (group_bytes ids) buf g ≡ ok (new_members ids g)
unfolding read_group
read_group-group_bytes zero ids buf g h l = absurd (omega arith)
read_group-group_bytes (suc fuel) ids buf g h l =
    let n = length (first 32 ids) in
    let stale = behind (4 * n) buf in
    elim (Bool-cases (4 * n == 128)) [
      | inl full ↦
          let fewer = length-first 32 ids in
          let rest =
            read_group-group_bytes fuel (behind 32 ids) (group_bytes (first 32 ids) ++ stale)
              (new_members (first 32 ids) g) (All-behind 32 ids h) (ground (arith, fewer)) in
          rw
            (
              first-group_bytes 32 ids,
              behind-group_bytes 32 ids,
              length-group_bytes (first 32 ids),
              full,
              ints_in-group_bytes (first 32 ids) stale (All-first 32 ids h),
            )
            (rest
              ∙ ap ok (
                  new_members-append (first 32 ids) (behind 32 ids) g
                  ∙ ap (λ (l : List ℕ). new_members l g) (first-behind 32 ids)))
      | inr short ↦
          let none_left : behind 32 ids ≡ [] = first_short 32 ids (λ e. ground (arith, e)) in
          let whole : first 32 ids ≡ ids =
            sym (append-nil (first 32 ids))
            ∙ ap (λ (l : List ℕ). first 32 ids ++ l) (sym none_left)
            ∙ first-behind 32 ids in
          rw
            (
              first-group_bytes 32 ids,
              length-group_bytes (first 32 ids),
              short,
              ints_in-group_bytes (first 32 ids) stale (All-first 32 ids h),
            )
            (ap (λ (l : List ℕ). ok (new_members l g)) whole)
    ]
