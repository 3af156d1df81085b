-- ===== src/Utils/Base64.antt =====
-- utils/base64.cpp. Bytes are numbers; `|` joins disjoint bits there, so it is a sum, and the decoder's
-- 32-bit buffer keeps its wrap-around.
pub mod Groups
pub mod RoundTrip
use vxcore.Prelude.{
  ◌≡◌, ℕ, zero, suc, ◌+◌, ◌-◌, ◌*◌, ◌/◌, ◌%◌, ◌^◌, Bool, true, false, not, ◌&&◌, ◌||◌, List, [],
  ◌∷◌, ◌++◌, Option, none, some, ltb, leb, ◌==◌, if◌then◌else◌, Bytes, codes,
}

-- kBase64Chars
abbrev base64_chars : Bytes
base64_chars = codes "ABCDEFGHIJKLMNOPQRSTUVWXYZabcdefghijklmnopqrstuvwxyz0123456789+/"

nth : Bytes → ℕ → ℕ
nth [] i = 0
nth (c ∷ cs) zero = c
nth (c ∷ cs) (suc i) = nth cs i

unfoldable pub symbol : ℕ → ℕ
unfolding nth
symbol = nth base64_chars

-- kDecodeTable: the value of a symbol, -2 for '=' and -1 for all else.
pub data Entry : Type 0 where
  digit : ℕ → Entry
  padding invalid : Entry

abbrev within : ℕ → ℕ → ℕ → Bool
within lo hi c = leb lo c && leb c hi

unfoldable pub decode_table : ℕ → Entry
decode_table c =
    if within b'A' b'Z' c
    then digit (c - 65)
    else if within b'a' b'z' c
    then digit (c - 71)
    else if within b'0' b'9' c
    then digit (c + 4)
    else if c == b'+'
    then digit 62
    else if c == b'/'
    then digit 63
    else if c == b'='
    then padding
    else invalid

-- The symbol of the six bits of `triple` above the lowest `2 ^ k`.
sextet : ℕ → ℕ → ℕ
unfolding symbol
sextet triple k = symbol ((triple / k) % 64)

unfoldable pub base64_encode : Bytes → Bytes
unfolding sextet
base64_encode [] = []
base64_encode (a ∷ []) =
    let triple = a * 65536 in sextet triple 262144 ∷ sextet triple 4096 ∷ b'=' ∷ b'=' ∷ []
base64_encode (a ∷ b ∷ []) =
    let triple = a * 65536 + b * 256 in
    sextet triple 262144 ∷ sextet triple 4096 ∷ sextet triple 64 ∷ b'=' ∷ []
base64_encode (a ∷ b ∷ c ∷ rest) =
    let triple = a * 65536 + b * 256 + c in
    sextet triple 262144
    ∷ sextet triple 4096
    ∷ sextet triple 64
    ∷ sextet triple 1
    ∷ base64_encode rest

abbrev is_blank : ℕ → Bool
is_blank c = c == b'\n' || (c == b'\r' || (c == b' ' || c == b'\t'))

-- The first pass: how many symbols and how much padding; `none` is an invalid character.
unfoldable pub count_chars : Bytes → ℕ → ℕ → Option (ℕ × ℕ)
count_chars [] valid pad = some (valid, pad)
count_chars (c ∷ cs) valid pad = elim (decode_table c) [
  | digit v ↦ count_chars cs (valid + 1) pad
  | padding ↦ count_chars cs valid (pad + 1)
  | invalid ↦ let rest = count_chars cs valid pad in if is_blank c then rest else none
]

-- The second pass over the symbols; padding and blanks are skipped.
unfoldable pub collect : Bytes → ℕ → ℕ → Bytes
collect [] buffer bits = []
collect (c ∷ cs) buffer bits = elim (decode_table c) [
  | digit v ↦
      let full = (buffer * 64 + v) % 2 ^ 32 in
      let out = ((full / 2 ^ (bits + 6 - 8)) % 256) ∷ collect cs full (bits + 6 - 8) in
      let more = collect cs full (bits + 6) in if leb 8 (bits + 6) then out else more
  | padding ↦ collect cs buffer bits
  | invalid ↦ collect cs buffer bits
]

unfoldable pub base64_decode : Bytes → Bytes
base64_decode encoded = elim (count_chars encoded 0 0) [
  | none ↦ []
  | some (valid, pad) ↦
      let out = collect encoded 0 0 in
      if not (((valid + pad) % 4) == 0) then [] else if ltb 2 pad then [] else out
]

valid_from : Bytes → ℕ → ℕ → Bool → Bool
valid_from [] valid pad seen = ((valid + pad) % 4) == 0
valid_from (c ∷ cs) valid pad seen = elim (decode_table c) [
  | digit v ↦ let rest = valid_from cs (valid + 1) pad seen in if seen then false else rest
  | padding ↦
      let rest = valid_from cs valid (pad + 1) true in if ltb 2 (pad + 1) then false else rest
  | invalid ↦ let rest = valid_from cs valid pad seen in if is_blank c then rest else false
]

unfoldable pub is_valid_base64 : Bytes → Bool
unfolding valid_from
is_valid_base64 text = valid_from text 0 0 false
