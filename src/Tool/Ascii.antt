-- ===== src/Tool/Ascii.antt =====
-- The standard library's comparison of texts up to the case of ASCII letters, which `provision` in
-- rylr998-tool/src/commands.rs uses.
use rylr998_rs.Base.{
  ℕ, ◌+◌, Bool, true, ◌&&◌, ◌≡◌, ◌↔◌, map, leb, if◌then◌else◌, Bytes, eq_bytes, eq_bytes_iff,
}

-- `u8::to_ascii_lowercase`.
abbrev pub to_ascii_lowercase : ℕ → ℕ
to_ascii_lowercase c = if leb b'A' c && leb c b'Z' then c + 32 else c

-- `eq_ignore_ascii_case`, as its documentation defines it.
abbrev pub eq_ignore_ascii_case : Bytes → Bytes → Bool
eq_ignore_ascii_case s t = eq_bytes (map to_ascii_lowercase s) (map to_ascii_lowercase t)

abbrev pub SameLetters : Bytes → Bytes → Type 0
SameLetters s t = map to_ascii_lowercase s ≡ map to_ascii_lowercase t

pub eq_ignore_ascii_case_iff : (s t : Bytes) → (eq_ignore_ascii_case s t ≡ true) ↔ SameLetters s t
eq_ignore_ascii_case_iff s t = eq_bytes_iff (map to_ascii_lowercase s) (map to_ascii_lowercase t)
