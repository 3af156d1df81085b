-- ===== src/Utils/Base64/RoundTrip.antt =====
-- Decoding what `Base64Encode` wrote.
use vxcore.Utils.Base64.Groups.{
  collect_end, byte_middle, byte_high, collect_padding, collect-symbol, collect-base64_encode,
  padding_symbol, mod64, decode_table-symbol, AllBytes,
}
use vxcore.Prelude.{
  ==_iff, ltb, length, ap, ℕ, ◌+◌, ◌*◌, ◌/◌, ◌%◌, ◌<◌, ◌≡◌, refl, ◌∙◌, Bool, true, false, [], ◌∷◌,
  some, ◌==◌, if◌then◌else◌, Bytes, arith,
}
use vxcore.Utils.Base64.{
  symbol, base64_encode, count_chars, collect, base64_decode, is_valid_base64, valid_from,
}

abbrev symbols : Bytes → ℕ
symbols [] = 0
symbols (a ∷ []) = 2
symbols (a ∷ b ∷ []) = 3
symbols (a ∷ b ∷ c ∷ rest) = 4 + symbols rest

abbrev pads : Bytes → ℕ
pads [] = 0
pads (a ∷ []) = 2
pads (a ∷ b ∷ []) = 1
pads (a ∷ b ∷ c ∷ rest) = pads rest

count_symbol :
    (k : ℕ) (cs : Bytes) (v p : ℕ)
    → k < 64
    → count_chars (symbol k ∷ cs) v p ≡ count_chars cs (v + 1) p
count_symbol k cs v p h = unfold count_chars in rw (decode_table-symbol k h, count_chars)

count_padding : (cs : Bytes) (v p : ℕ) → count_chars (b'=' ∷ cs) v p ≡ count_chars cs v (p + 1)
count_padding cs v p = unfold count_chars in rw (padding_symbol, count_chars)

whole_groups : (xs : Bytes) → ((symbols xs + pads xs) % 4 ≡ 0) × (pads xs < 3)
whole_groups [] = omega arith
whole_groups (a ∷ []) = omega arith
whole_groups (a ∷ b ∷ []) = omega arith
whole_groups (a ∷ b ∷ c ∷ rest) = omega (arith, whole_groups rest)

count-base64_encode :
    (xs : Bytes) (v : ℕ) → count_chars (base64_encode xs) v 0 ≡ some (v + symbols xs, pads xs)
unfolding base64_encode count_chars
count-base64_encode [] v = unfold count_chars in ap some (ground arith)
count-base64_encode (a ∷ []) v =
    rw
      (
        count_symbol _ _ _ 0 (mod64 _),
        count_symbol _ _ _ 0 (mod64 _),
        count_padding _ _ 0,
        count_padding _ _ 1,
        count_chars,
      )
      (ap some (ground arith))
count-base64_encode (a ∷ b ∷ []) v =
    rw
      (
        count_symbol _ _ _ 0 (mod64 _),
        count_symbol _ _ _ 0 (mod64 _),
        count_symbol _ _ _ 0 (mod64 _),
        count_padding _ _ 0,
        count_chars,
      )
      (ap some (ground arith))
count-base64_encode (a ∷ b ∷ c ∷ rest) v =
    rw
      (
        count_symbol _ _ _ 0 (mod64 _),
        count_symbol _ _ _ 0 (mod64 _),
        count_symbol _ _ _ 0 (mod64 _),
        count_symbol _ _ _ 0 (mod64 _),
        count-base64_encode rest,
      )
      (ap some (ground arith))

at_most_two : (n : ℕ) → n < 3 → ltb 2 n ≡ false
at_most_two n h = ground arith

-- A text that passes the checks is decoded by its second pass.
decode_counted :
    (text : Bytes) (v p : ℕ)
    → count_chars text 0 0 ≡ some (v, p)
    → (((v + p) % 4) == 0) ≡ true
    → ltb 2 p ≡ false
    → base64_decode text ≡ collect text 0 0
unfolding base64_decode
decode_counted text v p counted whole few = rw (counted, base64_decode, whole, few)

-- Decoding the encoding of a list of bytes, each below 256, gives the bytes back.
pub base64_decode-base64_encode : (xs : Bytes) → AllBytes xs → base64_decode (base64_encode xs) ≡ xs
base64_decode-base64_encode xs h =
    let w = whole_groups xs in
    decode_counted (base64_encode xs) (0 + symbols xs) (pads xs) (count-base64_encode xs 0)
      ((==_iff _ 0).1 (omega (arith, w.0))) (at_most_two (pads xs) w.1)
    ∙ collect-base64_encode xs 0 h

valid_symbol :
    (k : ℕ) (cs : Bytes) (v p : ℕ)
    → k < 64
    → valid_from (symbol k ∷ cs) v p false ≡ valid_from cs (v + 1) p false
valid_symbol k cs v p h = unfold valid_from in rw (decode_table-symbol k h, valid_from)

valid_padding :
    (cs : Bytes) (v p : ℕ) (seen : Bool)
    → valid_from (b'=' ∷ cs) v p seen
      ≡ (if ltb 2 (p + 1) then false else valid_from cs v (p + 1) true)
valid_padding cs v p seen = unfold valid_from in rw (padding_symbol, valid_from)

valid-base64_encode :
    (xs : Bytes) (v : ℕ)
    → valid_from (base64_encode xs) v 0 false ≡ (((v + (symbols xs + pads xs)) % 4) == 0)
unfolding base64_encode valid_from
valid-base64_encode [] v = unfold valid_from in refl
valid-base64_encode (a ∷ []) v =
    rw
      (
        valid_symbol _ _ _ 0 (mod64 _),
        valid_symbol _ _ _ 0 (mod64 _),
        valid_padding _ _ 0 false,
        valid_padding _ _ 1 true,
        valid_from,
      )
      (ground arith)
valid-base64_encode (a ∷ b ∷ []) v =
    rw
      (
        valid_symbol _ _ _ 0 (mod64 _),
        valid_symbol _ _ _ 0 (mod64 _),
        valid_symbol _ _ _ 0 (mod64 _),
        valid_padding _ _ 0 false,
        valid_from,
      )
      (ground arith)
valid-base64_encode (a ∷ b ∷ c ∷ rest) v =
    rw
      (
        valid_symbol _ _ _ 0 (mod64 _),
        valid_symbol _ _ _ 0 (mod64 _),
        valid_symbol _ _ _ 0 (mod64 _),
        valid_symbol _ _ _ 0 (mod64 _),
        valid-base64_encode rest,
      )
      (ground arith)

length-base64_encode : (xs : Bytes) → length (base64_encode xs) ≡ 4 * ((length xs + 2) / 3)
unfolding base64_encode
length-base64_encode [] = omega arith
length-base64_encode (a ∷ []) = omega arith
length-base64_encode (a ∷ b ∷ []) = omega arith
length-base64_encode (a ∷ b ∷ c ∷ rest) = omega (arith, length-base64_encode rest)

-- `IsValidBase64` accepts every encoding, and n bytes are encoded in 4 * ((n + 2) / 3) symbols.
is_valid_base64-base64_encode :
    (xs : Bytes)
    → (is_valid_base64 (base64_encode xs) ≡ true)
      × (length (base64_encode xs) ≡ 4 * ((length xs + 2) / 3))
is_valid_base64-base64_encode xs = (
  unfold is_valid_base64 in rw (valid-base64_encode xs 0) (ground (arith, whole_groups xs)),
  length-base64_encode xs,
)

-- A symbol behind the padding: `IsValidBase64` refuses the text, and `Base64Decode`, which is to give
-- nothing on invalid input, reads it as if the padding were not there.
base64_decode-after_padding :
    (d0 d1 d2 : ℕ)
    → d0 < 64
    → d1 < 64
    → d2 < 64
    → let text = symbol d0 ∷ symbol d1 ∷ b'=' ∷ symbol d2 ∷ [] in
      (is_valid_base64 text ≡ false)
      × (base64_decode text ≡ (d0 * 4 + d1 / 16) ∷ ((d1 % 16) * 16 + d2 / 4) ∷ [])
unfolding count_chars
base64_decode-after_padding d0 d1 d2 h0 h1 h2 =
    (refused, decode_counted _ 3 1 counted refl refl ∙ collected)
  where
    refused : is_valid_base64 (symbol d0 ∷ symbol d1 ∷ b'=' ∷ symbol d2 ∷ []) ≡ false
    refused =
        unfold is_valid_base64 in
        rw (
          valid_symbol d0 _ _ 0 h0,
          valid_symbol d1 _ _ 0 h1,
          valid_padding _ _ 0 false,
          valid_from,
          decode_table-symbol d2 h2,
          valid_from,
        )

    counted : count_chars (symbol d0 ∷ symbol d1 ∷ b'=' ∷ symbol d2 ∷ []) 0 0 ≡ some (3, 1)
    counted = rw (
      count_symbol d0 _ _ 0 h0,
      count_symbol d1 _ _ 0 h1,
      count_padding _ _ 0,
      count_symbol d2 _ _ 1 h2,
      count_chars,
    )

    collected :
        collect (symbol d0 ∷ symbol d1 ∷ b'=' ∷ symbol d2 ∷ []) 0 0
        ≡ (d0 * 4 + d1 / 16) ∷ ((d1 % 16) * 16 + d2 / 4) ∷ []
    collected = rw (
      collect-symbol d0 _ 0 0 h0,
      collect-symbol d1 _ _ 6 h1,
      collect_padding _ _ 4,
      collect-symbol d2 _ _ 4 h2,
      byte_high 0 d0 d1 h0 h1,
      byte_middle _ d1 d2 h1 h2,
      collect_end _ 2,
    )
