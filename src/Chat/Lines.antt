-- ===== src/Chat/Lines.antt =====
-- The texts that the chat client multicasts are what was typed.
use mathlib.Core.Path.{subst}
use ece.Prelude.{
  ℕ, zero, suc, ◌+◌, ◌<◌, ◌≤◌, ◌≡◌, refl, sym, ap, ◌∙◌, Bool, true, false, not, ◌&&◌, ◌||◌, List,
  [], ◌∷◌, ◌++◌, append_assoc, arith, length, All, filter, ◌==◌, Bool-cases, inl, inr, Result, ok,
}
use ece.Mcast.{c_string}
use ece.Chat.{fgets, without_last, trim, quit, starts_with, say, heard, chat_loop}

abbrev is_text : ℕ → Bool
is_text c = not (c == 10)

-- The input without its newlines.
abbrev pub typed : List ℕ → List ℕ
typed s = filter is_text s

abbrev pub join : List (List ℕ) → List ℕ
join [] = []
join (t ∷ ts) = t ++ join ts

abbrev pub nonzero : List ℕ → Bool
nonzero [] = true
nonzero (c ∷ s) = not (c == 0) && nonzero s

abbrev pub is_empty : List ℕ → Bool
is_empty [] = true
is_empty (c ∷ s) = false

-- A newline stands only at the end.
abbrev IsLine : List ℕ → Type 0
IsLine [] = Unit
IsLine (c ∷ []) = Unit
IsLine (c ∷ d ∷ s) = ((c == 10) ≡ false) × IsLine (d ∷ s)

-- What `fgets` takes of an input.
record Taken (k : ℕ) (s : List ℕ) (r : List ℕ × List ℕ) : Type 0 where
  split : r.0 ++ r.1 ≡ s
  room : length r.0 ≤ k
  line : IsLine r.0
  left : length r.0 + length r.1 ≡ length s

cons-IsLine : (c : ℕ) (s : List ℕ) → (c == 10) ≡ false → IsLine s → IsLine (c ∷ s)
cons-IsLine c [] h l = tt
cons-IsLine c (d ∷ s) h l = (h, l)

fgets-Taken : (k : ℕ) (s : List ℕ) → Taken k s (fgets k s)
unfolding fgets
fgets-Taken zero s = record { split = refl; room = omega arith; line = tt; left = omega arith }
fgets-Taken (suc k) [] = record { split = refl; room = omega arith; line = tt; left = omega arith }
fgets-Taken (suc k) (c ∷ s) = elim (Bool-cases (c == 10)) [
  | inl end ↦ rw end (record { split = refl; room = omega arith; line = tt; left = omega arith })
  | inr more ↦
      let t = fgets-Taken k s in
      rw more (record {
        split = ap (λ (l : List ℕ). c ∷ l) t.split;
        room = omega (arith, t.room);
        line = cons-IsLine c (fgets k s).0 more t.line;
        left = omega (arith, t.left);
      })
]

without_last-typed : (c : ℕ) (s : List ℕ) → IsLine (c ∷ s) → without_last c s ≡ typed (c ∷ s)
unfolding without_last
without_last-typed c [] h = ground arith
without_last-typed c (d ∷ s) (n, h) = rw n (ap (λ (l : List ℕ). c ∷ l) (without_last-typed d s h))

c_string-nonzero : (s : List ℕ) → nonzero s ≡ true → c_string s ≡ s
unfolding c_string
c_string-nonzero [] h = refl
c_string-nonzero (c ∷ s) h = ground (arith, c_string-nonzero s)

nonzero-append : (s t : List ℕ) → nonzero (s ++ t) ≡ (nonzero s && nonzero t)
nonzero-append [] t = refl
nonzero-append (c ∷ s) t = ground (arith, nonzero-append s t)

starts_with-append : (p s t : List ℕ) → starts_with p s ≡ true → starts_with p (s ++ t) ≡ true
unfolding starts_with
starts_with-append [] s t h = refl
starts_with-append (c ∷ p) [] t h = cc
starts_with-append (c ∷ p) (d ∷ s) t h = ground (arith, starts_with-append p s t)

typed-append : (s t : List ℕ) → typed (s ++ t) ≡ typed s ++ typed t
typed-append [] t = refl
typed-append (c ∷ s) t = ground (arith, typed-append s t)

length-typed : (s : List ℕ) → length (typed s) ≤ length s
length-typed [] = omega arith
length-typed (c ∷ s) = ground (arith, length-typed s)

-- What the loop says of an input, and what of it stays unsaid.
record Said (s : List ℕ) (r : Result (List (List ℕ))) : Type 0 where
  texts : List (List ℕ)
  rest : List ℕ
  returns : r ≡ ok texts
  content : typed s ≡ join texts ++ rest
  each : All (λ t. (length t ≤ 255) × (starts_with quit t ≡ false)) texts
  end : (is_empty rest || starts_with quit rest) ≡ true

say-Said :
    (rest : List ℕ → Result (List (List ℕ))) (line input text : List ℕ)
    → text ≡ typed line
    → length line ≤ 255
    → Said input (rest input)
    → Said (line ++ input) (say rest input text)
unfolding say
say-Said rest line input text e room h =
    let whole : typed (line ++ input) ≡ text ++ typed input =
      typed-append line input ∙ ap (λ (l : List ℕ). l ++ typed input) (sym e) in
    elim (Bool-cases (starts_with quit text)) [
      | inl quits ↦ rw quits (record {
        texts = [];
        rest = text ++ typed input;
        returns = refl;
        content = whole;
        each = tt;
        end = ground (arith, starts_with-append quit text (typed input) quits);
      })
      | inr goes ↦ rw goes (record {
        texts = text ∷ h.texts;
        rest = h.rest;
        returns = rw h.returns refl;
        content =
            whole
            ∙ ap (λ (l : List ℕ). text ++ l) h.content
            ∙ sym (append_assoc text (join h.texts) h.rest);
        each = ((rw e (omega (arith, length-typed line)), goes), h.each);
        end = h.end;
      })
    ]

heard-Said :
    (rest : List ℕ → Result (List (List ℕ))) (line input : List ℕ)
    → IsLine line
    → nonzero line ≡ true
    → length line ≤ 255
    → (is_empty line ≡ true → is_empty input ≡ true)
    → (is_empty line ≡ false → Said input (rest input))
    → Said (line ++ input) (heard rest (line, input))
unfolding heard trim
heard-Said rest [] [] l z room e h = record {
  texts = [];
  rest = [];
  returns = refl;
  content = refl;
  each = tt;
  end = refl;
}
heard-Said rest [] (c ∷ input) l z room e h = cc (e refl)
heard-Said rest (c ∷ line) input l z room e h = rw (c_string-nonzero (c ∷ line) z) (
    say-Said rest (c ∷ line) input (without_last c line) (without_last-typed c line l) room
      (h refl))

fgets_empty :
    (k : ℕ) (s : List ℕ) → is_empty (fgets (suc k) s).0 ≡ true → is_empty (fgets (suc k) s).1 ≡ true
unfolding fgets
fgets_empty k [] h = refl
fgets_empty k (c ∷ s) h = elim (Bool-cases (c == 10)) [
  | inl end ↦ cc (rw end at h)
  | inr more ↦ cc (rw more at h)
]

length_positive : (s : List ℕ) → is_empty s ≡ false → 0 < length s
length_positive [] h = cc
length_positive (c ∷ s) h = omega arith

chat_loop-Said :
    (fuel : ℕ) (s : List ℕ) → length s < fuel → nonzero s ≡ true → Said s (chat_loop fuel s)
unfolding chat_loop
chat_loop-Said zero s l z = absurd (omega arith)
chat_loop-Said (suc fuel) s l z =
    let t = fgets-Taken 255 s in
    let both : (nonzero (fgets 255 s).0 && nonzero (fgets 255 s).1) ≡ true =
      sym (nonzero-append (fgets 255 s).0 (fgets 255 s).1) ∙ ap nonzero t.split ∙ z in
    subst (λ (x : List ℕ). Said x (heard (chat_loop fuel) (fgets 255 s))) t.split
      (heard-Said (chat_loop fuel) (fgets 255 s).0 (fgets 255 s).1 t.line (ground arith) t.room
        (λ e. fgets_empty 254 s e)
        (λ e.
          chat_loop-Said fuel (fgets 255 s).1
            (omega (arith, t.left, length_positive (fgets 255 s).0 e)) (ground arith)))

-- For an input without zero bytes the loop ends, after at most as many rounds as the input has bytes
-- and one more. The texts that it multicasts are, one after the other, the input without its
-- newlines, up to its end or to a place where "/quit" stands. None of them has more than 255 bytes or
-- begins with "/quit".
pub chat_loop-says :
    (fuel : ℕ) (s : List ℕ)
    → length s < fuel
    → nonzero s ≡ true
    → (texts : List (List ℕ)) × (rest : List ℕ) × (chat_loop fuel s ≡ ok texts)
      × (typed s ≡ join texts ++ rest)
      × All (λ t. (length t ≤ 255) × (starts_with quit t ≡ false)) texts
      × ((is_empty rest || starts_with quit rest) ≡ true)
chat_loop-says fuel s l z =
    let h = chat_loop-Said fuel s l z in (h.texts, h.rest, h.returns, h.content, h.each, h.end)
