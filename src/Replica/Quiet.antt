-- ===== src/Replica/Quiet.antt =====
-- Which replicas would start an election when they are called, and what leaves them so.
use ece.Prelude.{
  ℕ, zero, suc, ◌+◌, ◌<◌, ◌≤◌, ◌≡◌, refl, ◌∙◌, Bool, true, false, ◌&&◌, not, Option, none, some,
  arith, ◌==◌, if◌then◌else◌, Bool-cases, inl, inr, ==→eq,
}
use ece.Map.{lookup}
use ece.Replica.{minus_one, Replica, Cluster, alter}
use ece.Replica.Ballot.{changed, lookup-alter}

abbrev pub is_ready : Replica → Bool
is_ready r = r.leader == minus_one && not r.election_in_progress

abbrev pub ready_in : Option Replica → Bool
ready_in none = false
ready_in (some r) = is_ready r

abbrev pub ready_of : ℕ → Cluster → Bool
ready_of k c = ready_in (lookup k c)

abbrev pub runs_in : Option Replica → Bool
runs_in none = false
runs_in (some r) = true

abbrev pub runs : ℕ → Cluster → Bool
runs k c = runs_in (lookup k c)

-- No replica gets ready, but perhaps replica `id`, and the same replicas run.
pub record CalmBut (id : ℕ) (c d : Cluster) : Type 0 where
  pub calm : (k : ℕ) → (id == k) ≡ false → ready_of k d ≡ true → ready_of k c ≡ true
  pub same : (k : ℕ) → runs k d ≡ runs k c

-- No replica gets ready.
pub record Calm (c d : Cluster) : Type 0 where
  pub calm : (k : ℕ) → ready_of k d ≡ true → ready_of k c ≡ true
  pub same : (k : ℕ) → runs k d ≡ runs k c

pub Calm-refl : (c : Cluster) → Calm c c
Calm-refl c = record { calm = λ k h. h; same = λ k. refl }

pub Calm-join : {c d e : Cluster} → Calm c d → Calm d e → Calm c e
Calm-join p q = record { calm = λ k h. p.calm k (q.calm k h); same = λ k. q.same k ∙ p.same k }

pub CalmBut-join : {id : ℕ} {c d e : Cluster} → CalmBut id c d → CalmBut id d e → CalmBut id c e
CalmBut-join p q = record {
  calm = λ k o h. p.calm k o (q.calm k o h);
  same = λ k. q.same k ∙ p.same k;
}

pub Calm-CalmBut : {c d : Cluster} (id : ℕ) → Calm c d → CalmBut id c d
Calm-CalmBut id p = record { calm = λ k o h. p.calm k h; same = p.same }

runs_in-changed : (f : Replica → Replica) (o : Option Replica) → runs_in (changed f o) ≡ runs_in o
runs_in-changed f none = refl
runs_in-changed f (some r) = refl

pub runs-alter : (id k : ℕ) (f : Replica → Replica) (c : Cluster) → runs k (alter id f c) ≡ runs k c
runs-alter id k f c = rw (lookup-alter id k f c) (ground (arith, runs_in-changed f (lookup k c)))

ready_in-changed :
    (f : Replica → Replica) (o : Option Replica)
    → ((r : Replica) → is_ready (f r) ≡ true → is_ready r ≡ true)
    → ready_in (changed f o) ≡ true
    → ready_in o ≡ true
ready_in-changed f none h e = cc
ready_in-changed f (some r) h e = h r e

pub alter-Calm :
    (id : ℕ) (f : Replica → Replica) (c : Cluster)
    → ((r : Replica) → is_ready (f r) ≡ true → is_ready r ≡ true)
    → Calm c (alter id f c)
alter-Calm id f c h = record {
  calm = λ k e. elim (Bool-cases (id == k)) [
    | inl own ↦ ready_in-changed f (lookup k c) h (rw (lookup-alter id k f c, own) at e)
    | inr other ↦ rw (lookup-alter id k f c, other) at e
  ];
  same = λ k. runs-alter id k f c;
}

pub alter-CalmBut : (id : ℕ) (f : Replica → Replica) (c : Cluster) → CalmBut id c (alter id f c)
alter-CalmBut id f c = record {
  calm = λ k other e. rw (lookup-alter id k f c, other) at e;
  same = λ k. runs-alter id k f c;
}

-- How many of the replicas below n are ready.
abbrev pub idle : ℕ → Cluster → ℕ
idle zero c = 0
idle (suc n) c = (if ready_of n c then 1 else 0) + idle n c

pub idle-le : (n : ℕ) (c : Cluster) → idle n c ≤ n
idle-le zero c = omega arith
idle-le (suc n) c = ground (arith, idle-le n c)

pub idle-Calm : (n : ℕ) (c d : Cluster) → Calm c d → idle n d ≤ idle n c
idle-Calm zero c d p = omega arith
idle-Calm (suc n) c d p = ground (arith, idle-Calm n c d p, p.calm n)

-- A ready replica that is ready no more counts.
pub idle-drop :
    (n i : ℕ) (c d : Cluster)
    → i < n
    → ready_of i c ≡ true
    → ready_of i d ≡ false
    → Calm c d
    → idle n d < idle n c
idle-drop zero i c d b h o p = omega arith
idle-drop (suc n) i c d b h o p = elim (Bool-cases (i == n)) [
  | inl e ↦
      let ready : ready_of n c ≡ true = rw (==→eq i n e) at h in
      let busy : ready_of n d ≡ false = rw (==→eq i n e) at o in ground (arith, idle-Calm n c d p)
  | inr e ↦
      let below : i < n = ground (arith, ==→eq i n) in
      ground (arith, idle-drop n i c d below h o p, p.calm n)
]
