-- ===== src/Tests/Utils.antt =====
-- utils/ at concrete inputs.
use vxcore.Prelude.{codes, refl, ◌≡◌, true, false, some, arith}
use vxcore.Utils.Glob.{matches_pattern}
use vxcore.Utils.Glob.Correct.{glob, matches_pattern-glob, matches_pattern-star_in_text}
use vxcore.Utils.Strings.{find}
use vxcore.Utils.Base64.{
  count_chars, collect, decode_table, decode_table, base64_encode, base64_decode,
}
use vxcore.Utils.Base64.RoundTrip.{base64_decode-base64_encode}

hello : base64_encode (codes "hello") ≡ codes "aGVsbG8="
unfolding base64_encode
hello = refl

hello_back : base64_decode (codes "aGVs\nbG8=") ≡ codes "hello"
unfolding base64_decode decode_table count_chars collect
hello_back = refl

base64_decode-base64_encode_example : base64_decode (base64_encode (codes "hello")) ≡ codes "hello"
base64_decode-base64_encode_example = base64_decode-base64_encode (codes "hello") (omega arith)

matches_pattern-glob_example :
    matches_pattern (codes "notes.md") (codes "*.m?")
    ≡ some (glob (codes "*.m?") (codes "notes.md"))
unfolding find
matches_pattern-glob_example =
    matches_pattern-glob (codes "notes.md") (codes "*.m?") refl
      (refl, (refl, (refl, (refl, (refl, (refl, (refl, (refl, tt))))))))

matches_pattern-star_in_text_example :
    (matches_pattern (codes "*ab") (codes "*b") ≡ some false)
    × (glob (codes "*b") (codes "*ab") ≡ true)
matches_pattern-star_in_text_example = matches_pattern-star_in_text b'b' b'a' refl refl refl
