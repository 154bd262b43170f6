-- ===== src/Connections.antt =====
-- MP2/src/replica/replicas.cpp: Replicas, which keeps a client for each replica that a process has
-- called, over a named pipe. Whether a replica listens on its pipe when it is called is a parameter.
pub mod Cache
pub mod Pipes
use ece.Prelude.{
  ℕ, zero, suc, Bool, true, false, Option, none, some, List, [], ◌∷◌, ◌++◌, length, leb,
  if◌then◌else◌,
}
use ece.Machines.{Text}
use ece.Decimal.{digits}

abbrev pub slash_pipe : Text
slash_pipe = b'/' ∷ b'p' ∷ b'i' ∷ b'p' ∷ b'e' ∷ []

-- `pipe_path`; an `unsigned int` has at most ten digits.
unfoldable pub pipe_path : Text → ℕ → Text
pipe_path pipedir id = pipedir ++ (slash_pipe ++ digits 9 id)

-- `replicas`: a null pointer, or a client whose transport is open or not.
abbrev pub Clients : Type 0
Clients = List (Option Bool)

-- `replicas.resize(numreplicas)`
unfoldable pub resize : ℕ → Clients
resize zero = []
resize (suc n) = none ∷ resize n

-- What `operator[]` comes to: the string that it throws, the exception of `open`, or a client with
-- its transport open or not.
pub data Access : Type 0 where
  invalid refused : Access
  client : Bool → Access

-- The client that is there, or a new one. It is kept before its transport is opened.
unfoldable pub connect : Bool → Option Bool → Option Bool × Access
connect listens none = (some listens, if listens then client true else refused)
connect listens (some opened) = (some opened, client opened)

unfoldable pub access : Bool → ℕ → Clients → Clients × Access
access listens id [] = ([], invalid)
access listens zero (o ∷ c) = ((connect listens o).0 ∷ c, (connect listens o).1)
access listens (suc id) (o ∷ c) = let rest = access listens id c in (o ∷ rest.0, rest.1)
