-- ===== src/Utils/Base64/Groups.antt =====
-- The decoder's loop on the symbols of one encoded group after the other.
use vxcore.Prelude.{
  ℕ, zero, suc, ◌+◌, ◌-◌, ◌*◌, ◌/◌, ◌%◌, ◌^◌, ◌<◌, ◌≡◌, refl, ◌∙◌, Bool, true, false, ◌&&◌, [], ◌∷◌,
  leb, ◌==◌, if◌then◌else◌, Bytes, arith, All,
}
use vxcore.Utils.Base64.{
  symbol, Entry, digit, padding, invalid, decode_table, base64_encode, collect,
}

is_digit : ℕ → Entry → Bool
is_digit k (digit v) = v == k
is_digit k padding = false
is_digit k invalid = false

all_digits : ℕ → Bool
unfolding is_digit
all_digits zero = true
all_digits (suc n) = is_digit n (decode_table (symbol n)) && all_digits n

all_digits_sound :
    (n k : ℕ) → all_digits n ≡ true → k < n → is_digit k (decode_table (symbol k)) ≡ true
unfolding all_digits
all_digits_sound zero k h lt = absurd (omega arith)
all_digits_sound (suc n) k h lt = ground (arith, all_digits_sound n k)

table : all_digits 64 ≡ true
unfolding all_digits symbol decode_table
table = refl

digit_of : (k : ℕ) (e : Entry) → is_digit k e ≡ true → e ≡ digit k
unfolding is_digit
digit_of k (digit v) h = ground arith
digit_of k padding h = cc
digit_of k invalid h = cc

-- The two tables are inverse to one another.
pub decode_table-symbol : (k : ℕ) → k < 64 → decode_table (symbol k) ≡ digit k
decode_table-symbol k h = digit_of k _ (all_digits_sound 64 k table h)

pub collect-symbol :
    (k : ℕ) (cs : Bytes) (buffer bits : ℕ)
    → k < 64
    → collect (symbol k ∷ cs) buffer bits ≡ (
        let full = (buffer * 64 + k) % 2 ^ 32 in
        if leb 8 (bits + 6)
        then ((full / 2 ^ (bits + 6 - 8)) % 256) ∷ collect cs full (bits + 6 - 8)
        else collect cs full (bits + 6))
collect-symbol k cs buffer bits h = unfold collect in rw (decode_table-symbol k h, collect)

-- The buffer behind four more symbols.
abbrev pub filled : ℕ → ℕ → ℕ → ℕ → ℕ → ℕ
filled buffer d0 d1 d2 d3 =
    (((((((buffer * 64 + d0) % 2 ^ 32) * 64 + d1) % 2 ^ 32) * 64 + d2) % 2 ^ 32) * 64 + d3) % 2 ^ 32

pub byte_high :
    (x d0 d1 : ℕ)
    → d0 < 64
    → d1 < 64
    → ((((x * 64 + d0) % 2 ^ 32) * 64 + d1) % 2 ^ 32) / 16 % 256 ≡ d0 * 4 + d1 / 16
byte_high x d0 d1 h0 h1 = omega arith

pub byte_middle :
    (x d1 d2 : ℕ)
    → d1 < 64
    → d2 < 64
    → ((((x * 64 + d1) % 2 ^ 32) * 64 + d2) % 2 ^ 32) / 4 % 256 ≡ (d1 % 16) * 16 + d2 / 4
byte_middle x d1 d2 h1 h2 = omega arith

pub byte_low :
    (x d2 d3 : ℕ)
    → d2 < 64
    → d3 < 64
    → ((((x * 64 + d2) % 2 ^ 32) * 64 + d3) % 2 ^ 32) / 1 % 256 ≡ (d2 % 4) * 64 + d3
byte_low x d2 d3 h2 h3 = omega arith

-- A group of four symbols gives three bytes and leaves no bits.
collect_group :
    (d0 d1 d2 d3 buffer : ℕ) (cs : Bytes)
    → d0 < 64
    → d1 < 64
    → d2 < 64
    → d3 < 64
    → collect (symbol d0 ∷ symbol d1 ∷ symbol d2 ∷ symbol d3 ∷ cs) buffer 0
      ≡ (d0 * 4 + d1 / 16)
        ∷ ((d1 % 16) * 16 + d2 / 4)
        ∷ ((d2 % 4) * 64 + d3)
        ∷ collect cs (filled buffer d0 d1 d2 d3) 0
collect_group d0 d1 d2 d3 buffer cs h0 h1 h2 h3 = rw (
  collect-symbol d0 _ buffer 0 h0,
  collect-symbol d1 _ _ 6 h1,
  collect-symbol d2 _ _ 4 h2,
  collect-symbol d3 _ _ 2 h3,
  byte_high buffer d0 d1 h0 h1,
  byte_middle _ d1 d2 h1 h2,
  byte_low _ d2 d3 h2 h3,
)

pub padding_symbol : decode_table b'=' ≡ padding
unfolding decode_table
padding_symbol = refl

-- The four sextets of three bytes give the bytes back.
pub sextets :
    (a b c : ℕ)
    → a < 256
    → b < 256
    → c < 256
    → let t = a * 65536 + b * 256 + c in
      let d0 = (t / 262144) % 64 in
      let d1 = (t / 4096) % 64 in
      let d2 = (t / 64) % 64 in
      let d3 = (t / 1) % 64 in
      (d0 * 4 + d1 / 16 ≡ a) × ((d1 % 16) * 16 + d2 / 4 ≡ b) × ((d2 % 4) * 64 + d3 ≡ c)
sextets a b c ha hb hc = (omega arith, omega arith, omega arith)

abbrev pub AllBytes : Bytes → Type 0
AllBytes = All (λ c. c < 256)

pub collect_padding :
    (cs : Bytes) (buffer bits : ℕ) → collect (b'=' ∷ cs) buffer bits ≡ collect cs buffer bits
collect_padding cs buffer bits = unfold collect in rw (padding_symbol, collect)

pub collect_end : (buffer bits : ℕ) → collect [] buffer bits ≡ []
unfolding collect
collect_end buffer bits = refl

pub mod64 : (n : ℕ) → n % 64 < 64
mod64 n = omega arith

cons₂ : {a b : ℕ} {xs ys : Bytes} → a ≡ b → xs ≡ ys → a ∷ xs ≡ b ∷ ys
cons₂ p q = cc

pub collect-base64_encode :
    (xs : Bytes) (buffer : ℕ) → AllBytes xs → collect (base64_encode xs) buffer 0 ≡ xs
unfolding base64_encode
collect-base64_encode [] buffer h = collect_end buffer 0
collect-base64_encode (a ∷ []) buffer h =
    let t = a * 65536 in
    let d0 = (t / 262144) % 64 in
    let d1 = (t / 4096) % 64 in
    rw
      (
        collect-symbol d0 _ buffer 0 (mod64 _),
        collect-symbol d1 _ _ 6 (mod64 _),
        byte_high buffer d0 d1 (mod64 _) (mod64 _),
        collect_padding _ _ 4,
        collect_padding _ _ 4,
        collect_end _ 4,
      )
      (cons₂ (omega (arith, h.0)) refl)
collect-base64_encode (a ∷ b ∷ []) buffer h =
    let t = a * 65536 + b * 256 in
    let d0 = (t / 262144) % 64 in
    let d1 = (t / 4096) % 64 in
    let d2 = (t / 64) % 64 in
    rw
      (
        collect-symbol d0 _ buffer 0 (mod64 _),
        collect-symbol d1 _ _ 6 (mod64 _),
        collect-symbol d2 _ _ 4 (mod64 _),
        byte_high buffer d0 d1 (mod64 _) (mod64 _),
        byte_middle _ d1 d2 (mod64 _) (mod64 _),
        collect_padding _ _ 2,
        collect_end _ 2,
      )
      (cons₂ (omega (arith, h.0, h.1.0)) (cons₂ (omega (arith, h.0, h.1.0)) refl))
collect-base64_encode (a ∷ b ∷ c ∷ rest) buffer h =
    let t = a * 65536 + b * 256 + c in
    let e = sextets a b c h.0 h.1.0 h.1.1.0 in
    collect_group ((t / 262144) % 64) ((t / 4096) % 64) ((t / 64) % 64) ((t / 1) % 64) buffer _
      (mod64 _) (mod64 _) (mod64 _) (mod64 _)
    ∙ cons₂ e.0 (cons₂ e.1 (cons₂ e.2 (collect-base64_encode rest _ h.1.1.1)))
