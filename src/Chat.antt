-- ===== src/Chat.antt =====
-- MP1/chat.cc: the loop that reads lines from the terminal and multicasts them. The input is the
-- bytes up to its end; no signal interrupts a read.
pub mod Lines
use ece.Prelude.{
  ℕ, zero, suc, Bool, true, false, ◌&&◌, List, [], ◌∷◌, ◌==◌, if◌then◌else◌, Result, ok, fault,
  ◌>>=◌, over_read, out_of_fuel,
}
use ece.Mcast.{c_string}

-- The bytes that `fgets` takes, of which there is room for k, and those that stay.
unfoldable pub fgets : ℕ → List ℕ → List ℕ × List ℕ
fgets zero s = ([], s)
fgets (suc k) [] = ([], [])
fgets (suc k) (c ∷ s) = let r = fgets k s in if c == 10 then (c ∷ [], s) else (c ∷ r.0, r.1)

-- The newline at the end goes. For an empty string `str[len-1]` stands before the buffer.
unfoldable pub without_last : ℕ → List ℕ → List ℕ
without_last c [] = if c == 10 then [] else c ∷ []
without_last c (d ∷ s) = c ∷ without_last d s

unfoldable pub trim : List ℕ → Result (List ℕ)
trim [] = fault over_read
trim (c ∷ s) = ok (without_last c s)

-- `strncmp(str, "/quit", 5) == 0`
abbrev pub quit : List ℕ
quit = b'/' ∷ b'q' ∷ b'u' ∷ b'i' ∷ b't' ∷ []

unfoldable pub starts_with : List ℕ → List ℕ → Bool
starts_with [] s = true
starts_with (p ∷ ps) [] = false
starts_with (p ∷ ps) (c ∷ s) = p == c && starts_with ps s

-- The texts of the calls of `multicast`: this one, and those of the further rounds.
unfoldable pub say : (List ℕ → Result (List (List ℕ))) → List ℕ → List ℕ → Result (List (List ℕ))
say rest input text =
    if starts_with quit text then ok [] else (rest input >>= λ texts. ok (text ∷ texts))

unfoldable pub heard : (List ℕ → Result (List (List ℕ))) → List ℕ × List ℕ → Result (List (List ℕ))
heard rest ([], input) = ok []
heard rest (c ∷ line, input) = trim (c_string (c ∷ line)) >>= say rest input

-- The loop of `main`, with room for 255 bytes and the zero behind them. The fuel bounds the rounds.
unfoldable pub chat_loop : ℕ → List ℕ → Result (List (List ℕ))
chat_loop zero input = fault out_of_fuel
chat_loop (suc fuel) input = heard (chat_loop fuel) (fgets 255 input)
