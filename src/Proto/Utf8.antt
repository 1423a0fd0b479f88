-- ===== src/Proto/Utf8.antt =====
-- `String::from_utf8` of the standard library: which bytes are UTF-8. A `String` is modelled by its
-- bytes, which are UTF-8 wherever a value of that type exists.
use bhumi.Base.{
  ℕ, zero, suc, Bool, false, ◌&&◌, Option, none, some, [], ◌∷◌, ltb, leb, nat_eq, if◌then◌else◌,
  Result, ok, err, invalid_data,
}
use bhumi.Proto.Buffer.{Bytes}

-- How many bytes follow a leading byte, and the range of the first of them.
lead : ℕ → Option (ℕ × ℕ × ℕ)
lead b =
    if ltb b 0x80
    then some (0, 0x80, 0xBF)
    else if ltb b 0xC2
    then none
    else if ltb b 0xE0
    then some (1, 0x80, 0xBF)
    else if nat_eq b 0xE0
    then some (2, 0xA0, 0xBF)
    else if nat_eq b 0xED
    then some (2, 0x80, 0x9F)
    else if ltb b 0xF0
    then some (2, 0x80, 0xBF)
    else if nat_eq b 0xF0
    then some (3, 0x90, 0xBF)
    else if ltb b 0xF4
    then some (3, 0x80, 0xBF)
    else if nat_eq b 0xF4
    then some (3, 0x80, 0x8F)
    else none

-- `left` bytes of a character are still to come, the next one between `lo` and `hi`.
scan : ℕ → ℕ → ℕ → Bytes → Bool
unfolding lead
scan left lo hi [] = nat_eq left 0
scan zero lo hi (b ∷ bs) = elim (lead b) [ none ↦ false | some (n, lo', hi') ↦ scan n lo' hi' bs ]
scan (suc left) lo hi (b ∷ bs) = leb lo b && leb b hi && scan left 0x80 0xBF bs

unfoldable pub is_utf8 : Bytes → Bool
unfolding scan
is_utf8 bs = scan 0 0x80 0xBF bs

-- `String::from_utf8(bytes)`, with the message of the caller's `map_err`.
unfoldable pub from_utf8 : Bytes → Result Bytes
from_utf8 bs = if is_utf8 bs then ok bs else err (invalid_data "invalid utf8 in relay_url")
