-- ===== src/Tests/Terminal.antt =====
-- Two lines at the terminal.
use ece.Prelude.{ℕ, ◌≡◌, ◌≤◌, refl, true, false, ◌||◌, List, [], ◌∷◌, ◌++◌, All, length, arith, ok}
use ece.Chat.{quit, starts_with, chat_loop}
use ece.Chat.Lines.{typed, join, is_empty, chat_loop-says}

-- "Hi", "/quit" and "x"
abbrev input : List ℕ
input = 72 ∷ 105 ∷ 10 ∷ (quit ++ 10 ∷ 120 ∷ 10 ∷ [])

chat_loop-says_example :
    (texts : List (List ℕ)) × (rest : List ℕ) × (chat_loop 20 input ≡ ok texts)
    × (typed input ≡ join texts ++ rest)
    × All (λ t. (length t ≤ 255) × (starts_with quit t ≡ false)) texts
    × ((is_empty rest || starts_with quit rest) ≡ true)
chat_loop-says_example = chat_loop-says 20 input (omega arith) refl
