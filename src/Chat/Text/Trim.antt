-- ===== src/Chat/Text/Trim.antt =====
-- What the chat programs of examples leave of a line.
use raknet_sys.Prelude.{ℕ, ◌≡◌, refl, ap, inl, inr, true, false, [], ◌∷◌, ◌++◌, All, Bool-cases}
use raknet_sys.Wrapper.Text.Utf8.{Chars}
use raknet_sys.Chat.Text.{is_whitespace, before_trimmed, trim_end}

abbrev pub IsWhitespace : ℕ → Type 0
IsWhitespace c = is_whitespace c ≡ true

-- The last character, if there is one, is no white space.
abbrev pub EndsInText : Chars → Type 0
EndsInText [] = Unit
EndsInText (c ∷ []) = is_whitespace c ≡ false
EndsInText (c ∷ d ∷ ds) = EndsInText (d ∷ ds)

before_trimmed_cases :
    (c : ℕ) (cs trimmed ws : Chars)
    → cs ≡ trimmed ++ ws
    → All IsWhitespace ws
    → EndsInText trimmed
    → (ws' : Chars) × (c ∷ cs ≡ before_trimmed c trimmed ++ ws')
      × All IsWhitespace ws'
      × EndsInText (before_trimmed c trimmed)
before_trimmed_cases c cs [] ws e white ends = elim (Bool-cases (is_whitespace c)) [
  | inl blank ↦ (c ∷ ws, rw (blank, e), (blank, white), rw blank tt)
  | inr other ↦ (ws, rw (other, e), white, rw other other)
]
before_trimmed_cases c cs (d ∷ ds) ws e white ends = (ws, ap (◌∷◌ c) e, white, ends)

-- A line is what is left of it and then white space only, and what is left does not end in white space.
pub trim_end_lem :
    (cs : Chars)
    → (ws : Chars) × (cs ≡ trim_end cs ++ ws) × All IsWhitespace ws × EndsInText (trim_end cs)
unfolding trim_end
trim_end_lem [] = ([], refl, tt, tt)
trim_end_lem (c ∷ cs) =
    let (ws, e, white, ends) = trim_end_lem cs in
    before_trimmed_cases c cs (trim_end cs) ws e white ends

trim_end-whitespace : (ws : Chars) → All IsWhitespace ws → trim_end ws ≡ []
unfolding trim_end
trim_end-whitespace [] h = refl
trim_end-whitespace (c ∷ cs) (blank, h) = rw (trim_end-whitespace cs h, blank)

-- White space at the end does not matter.
pub trim_end-append : (cs ws : Chars) → All IsWhitespace ws → trim_end (cs ++ ws) ≡ trim_end cs
unfolding trim_end
trim_end-append [] ws h = trim_end-whitespace ws h
trim_end-append (c ∷ cs) ws h = ap (before_trimmed c) (trim_end-append cs ws h)

-- A text that does not end in white space is left as it is.
pub trim_end-EndsInText : (cs : Chars) → EndsInText cs → trim_end cs ≡ cs
unfolding trim_end
trim_end-EndsInText [] h = refl
trim_end-EndsInText (c ∷ []) h = rw h
trim_end-EndsInText (c ∷ d ∷ ds) h = ap (before_trimmed c) (trim_end-EndsInText (d ∷ ds) h)
