-- ===== src/Connections/Pipes.antt =====
-- Every replica has a pipe of its own.
use ece.Prelude.{ℕ, ◌≡◌, ◌≢◌, sym, ap, ◌∙◌, List, [], ◌∷◌, ◌++◌, arith}
use ece.Int32.{IsInt}
use ece.Machines.{Text}
use ece.Decimal.{digits, read_digits}
use ece.Decimal.RoundTrip.{read-digits}
use ece.Connections.{slash_pipe, pipe_path}

append-injective : (p s t : List ℕ) → p ++ s ≡ p ++ t → s ≡ t
append-injective [] s t h = h
append-injective (c ∷ p) s t h = append-injective p s t cc

pipe_path-injective :
    (pipedir : Text) (i j : ℕ)
    → IsInt i
    → IsInt j
    → pipe_path pipedir i ≡ pipe_path pipedir j
    → i ≡ j
unfolding pipe_path
pipe_path-injective pipedir i j a b h =
    let same =
      append-injective slash_pipe (digits 9 i) (digits 9 j)
        (append-injective pipedir (slash_pipe ++ digits 9 i) (slash_pipe ++ digits 9 j) h) in
    sym (read-digits 9 i (omega arith)) ∙ ap (read_digits 0) same ∙ read-digits 9 j (omega arith)

-- The paths of the pipes of two different replicas are different.
pub pipe_path-ne :
    (pipedir : Text) (i j : ℕ)
    → IsInt i
    → IsInt j
    → i ≢ j
    → pipe_path pipedir i ≢ pipe_path pipedir j
pipe_path-ne pipedir i j a b n = λ e. n (pipe_path-injective pipedir i j a b e)
