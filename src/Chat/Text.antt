-- ===== src/Chat/Text.antt =====
-- Lines as the chat programs of examples read them: characters by their code points.
pub mod Trim
use raknet_sys.Wrapper.Text.Utf8.{Chars}
use raknet_sys.Prelude.{
  ℕ, ◌+◌, ◌/◌, ◌%◌, ◌^◌, Bool, true, false, ◌||◌, ◌&&◌, List, [], ◌∷◌, ◌++◌, Bytes, ◌==◌, leb, ltb,
  if◌then◌else◌,
}

-- `char::is_whitespace`: the property White_Space of Unicode.
abbrev pub is_whitespace : ℕ → Bool
is_whitespace c =
    leb 9 c && leb c 13
    || c == 0x20
    || c == 0x85
    || c == 0xA0
    || c == 0x1680
    || leb 0x2000 c && leb c 0x200A
    || c == 0x2028
    || c == 0x2029
    || c == 0x202F
    || c == 0x205F
    || c == 0x3000

-- A character before a text that is trimmed already.
abbrev before_trimmed : ℕ → Chars → Chars
before_trimmed c [] = if is_whitespace c then [] else c ∷ []
before_trimmed c (d ∷ ds) = c ∷ d ∷ ds

-- `str::trim_end`
unfoldable pub trim_end : Chars → Chars
trim_end [] = []
trim_end (c ∷ cs) = before_trimmed c (trim_end cs)
