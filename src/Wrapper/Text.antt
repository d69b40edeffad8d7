-- ===== src/Wrapper/Text.antt =====
-- Texts that src/rakpeer.rs hands to C and takes from C: `CString`, `CStr` and UTF-8.
pub mod Utf8
pub mod Numbers
use raknet_sys.Prelude.{
  ℕ, zero, suc, Bool, true, false, ◌&&◌, ◌||◌, [], ◌∷◌, Bytes, ◌==◌, leb, ltb, if◌then◌else◌,
}
use raknet_sys.Prelude.Outcome.{Outcome, ok, panic, unwrap_err, ◌>>=◌}
use raknet_sys.Native.Pointer.{Ptr, deref}

abbrev pub has_zero : Bytes → Bool
has_zero [] = false
has_zero (b ∷ bs) = b == 0 || has_zero bs

-- `CString::new(s).unwrap()`; the zero byte at the end is left out.
unfoldable pub new_cstring : Bytes → Outcome Bytes
new_cstring s = if has_zero s then panic unwrap_err else ok s

-- What a first byte of a UTF-8 sequence asks for: how many bytes follow, and the range of the next.
abbrev lead : ℕ → ℕ × ℕ × ℕ × Bool
lead b =
    if ltb b 0x80
    then (0, 0, 0, true)
    else if leb 0xC2 b && leb b 0xDF
    then (1, 0x80, 0xBF, true)
    else if b == 0xE0
    then (2, 0xA0, 0xBF, true)
    else if b == 0xED
    then (2, 0x80, 0x9F, true)
    else if leb 0xE1 b && leb b 0xEF
    then (2, 0x80, 0xBF, true)
    else if b == 0xF0
    then (3, 0x90, 0xBF, true)
    else if leb 0xF1 b && leb b 0xF3
    then (3, 0x80, 0xBF, true)
    else if b == 0xF4
    then (3, 0x80, 0x8F, true)
    else (0, 0, 0, false)

is_utf8_from : ℕ → ℕ → ℕ → Bytes → Bool
is_utf8_from zero low high [] = true
is_utf8_from zero low high (b ∷ bs) =
    let (more, l, h, valid) = lead b in valid && is_utf8_from more l h bs
is_utf8_from (suc more) low high [] = false
is_utf8_from (suc more) low high (b ∷ bs) =
    (leb low b && leb b high) && is_utf8_from more 0x80 0xBF bs

-- `core::str::from_utf8(bytes).is_ok()`
unfoldable pub is_utf8 : Bytes → Bool
unfolding is_utf8_from
is_utf8 bytes = is_utf8_from 0 0 0 bytes

-- `CStr::from_ptr(s).to_str().unwrap().to_owned()`, at a pointer to a C string
unfoldable pub cstr_to_string : Ptr Bytes → Outcome Bytes
cstr_to_string s = deref s >>= λ bytes. if is_utf8 bytes then ok bytes else panic unwrap_err
