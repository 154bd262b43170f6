-- ===== src/Connections/Cache.antt =====
-- A client that is kept is never replaced.
use ece.Prelude.{ℕ, zero, suc, ◌≡◌, refl, Bool, true, false, Option, none, some, List, [], ◌∷◌}
use ece.Connections.{Clients, refused, client, connect, access}

-- The calls of a process: whether the replica listens, and which it is.
abbrev pub after_calls : List (Bool × ℕ) → Clients → Clients
after_calls [] c = c
after_calls ((listens, id) ∷ es) c = after_calls es (access listens id c).0

abbrev pub kept : ℕ → Clients → Option Bool
kept id [] = none
kept zero (o ∷ c) = o
kept (suc id) (o ∷ c) = kept id c

access-kept :
    (listens opened : Bool) (k id : ℕ) (c : Clients)
    → kept id c ≡ some opened
    → kept id (access listens k c).0 ≡ some opened
unfolding access connect
access-kept listens opened k id [] h = h
access-kept listens opened zero zero (none ∷ c) h = cc
access-kept listens opened zero zero (some o ∷ c) h = h
access-kept listens opened zero (suc id) (o ∷ c) h = h
access-kept listens opened (suc k) zero (o ∷ c) h = h
access-kept listens opened (suc k) (suc id) (o ∷ c) h = access-kept listens opened k id c h

after_calls-kept :
    (es : List (Bool × ℕ)) (opened : Bool) (id : ℕ) (c : Clients)
    → kept id c ≡ some opened
    → kept id (after_calls es c) ≡ some opened
after_calls-kept [] opened id c h = h
after_calls-kept ((listens, k) ∷ es) opened id c h =
    after_calls-kept es opened id (access listens k c).0 (access-kept listens opened k id c h)

kept-access :
    (listens opened : Bool) (id : ℕ) (c : Clients)
    → kept id c ≡ some opened
    → (access listens id c).1 ≡ client opened
unfolding access connect
kept-access listens opened id [] h = cc
kept-access listens opened zero (none ∷ c) h = cc
kept-access listens opened zero (some o ∷ c) h = cc
kept-access listens opened (suc id) (o ∷ c) h = kept-access listens opened id c h

refused-kept :
    (listens : Bool) (id : ℕ) (c : Clients)
    → (access listens id c).1 ≡ refused
    → kept id (access listens id c).0 ≡ some false
unfolding access connect
refused-kept listens id [] h = cc
refused-kept true zero (none ∷ c) h = cc
refused-kept false zero (none ∷ c) h = refl
refused-kept listens zero (some o ∷ c) h = cc
refused-kept listens (suc id) (o ∷ c) h = refused-kept listens id c h

-- Once a replica has refused a connection, a process gets no open connection to it any more: after
-- any further calls, and also when the replica listens again, it gets the client whose transport is
-- not open.
pub access-refused :
    (listens again : Bool) (id : ℕ) (es : List (Bool × ℕ)) (c : Clients)
    → (access listens id c).1 ≡ refused
    → (access again id (after_calls es (access listens id c).0)).1 ≡ client false
access-refused listens again id es c h =
    kept-access again false id _
      (after_calls-kept es false id (access listens id c).0 (refused-kept listens id c h))
