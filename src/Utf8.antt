-- ===== src/Utf8.antt =====
-- `core::str::from_utf8`, which rylr998-core/src/decode.rs calls: the well-formed UTF-8 texts. A lead
-- byte says how many bytes follow and in which range the next one lies.
use rylr998_rs.Base.{
  ℕ, zero, suc, ◌<◌, ◌≡◌, refl, Bool, true, false, ◌&&◌, Option, none, some, [], ◌∷◌, ltb, leb,
  ◌==◌, if◌then◌else◌, Bytes, All, lt→ltb,
}

-- What a lead byte announces: the bytes that follow, and the range of the first of them.
record Lead : Type 0 where
  need : ℕ
  low : ℕ
  high : ℕ

abbrev within : ℕ → ℕ → ℕ → Bool
within low high b = leb low b && leb b high

lead : ℕ → Option Lead
lead b =
    if ltb b 0x80
    then some (record { need = 0; low = 0x80; high = 0xbf })
    else if within 0xc2 0xdf b
    then some (record { need = 1; low = 0x80; high = 0xbf })
    else if b == 0xe0
    then some (record { need = 2; low = 0xa0; high = 0xbf })
    else if b == 0xed
    then some (record { need = 2; low = 0x80; high = 0x9f })
    else if within 0xe1 0xef b
    then some (record { need = 2; low = 0x80; high = 0xbf })
    else if b == 0xf0
    then some (record { need = 3; low = 0x90; high = 0xbf })
    else if within 0xf1 0xf3 b
    then some (record { need = 3; low = 0x80; high = 0xbf })
    else if b == 0xf4
    then some (record { need = 3; low = 0x80; high = 0x8f })
    else none

utf8_from : ℕ → ℕ → ℕ → Bytes → Bool
utf8_from zero low high [] = true
utf8_from (suc need) low high [] = false
utf8_from zero low high (b ∷ s) = elim (lead b) [
  | none ↦ false
  | some l ↦ utf8_from l.need l.low l.high s
]
utf8_from (suc need) low high (b ∷ s) = within low high b && utf8_from need 0x80 0xbf s

-- Whether `from_utf8` accepts the bytes.
unfoldable pub valid_utf8 : Bytes → Bool
unfolding utf8_from lead
valid_utf8 s = utf8_from 0 0x80 0xbf s

abbrev pub IsAscii : ℕ → Type 0
IsAscii c = c < 0x80

lead-ascii : (b : ℕ) → IsAscii b → lead b ≡ some (record { need = 0; low = 0x80; high = 0xbf })
unfolding lead
lead-ascii b h = rw (lt→ltb b 0x80 h)

utf8_from-ascii : (low high : ℕ) (s : Bytes) → All IsAscii s → utf8_from 0 low high s ≡ true
unfolding utf8_from
utf8_from-ascii low high [] h = refl
utf8_from-ascii low high (b ∷ s) (hb, hs) =
    rw (utf8_from, lead-ascii b hb) (utf8_from-ascii 0x80 0xbf s hs)

-- An ASCII text is UTF-8.
pub valid_utf8-ascii : (s : Bytes) → All IsAscii s → valid_utf8 s ≡ true
unfolding valid_utf8
valid_utf8-ascii s h = utf8_from-ascii 0x80 0xbf s h

euro : valid_utf8 (0xe2 ∷ 0x82 ∷ 0xac ∷ []) ≡ true
unfolding valid_utf8
euro = refl

surrogate : valid_utf8 (0xed ∷ 0xa0 ∷ 0x80 ∷ []) ≡ false
unfolding valid_utf8
surrogate = refl
