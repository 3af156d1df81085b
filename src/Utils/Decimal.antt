-- ===== src/Utils/Decimal.antt =====
-- std::to_string of the standard library.
use vxcore.Prelude.{zero, ltb, if◌then◌else◌, ◌∷◌, ◌%◌, ◌+◌, ◌++◌, ◌/◌, suc, [], Bytes, ℕ}

-- The digits of a number; `fuel` is one more than the digits needed at most.
unfoldable pub digits : ℕ → ℕ → Bytes
digits zero n = []
digits (suc fuel) n =
    let more = digits fuel (n / 10) ++ (b'0' + n % 10) ∷ [] in
    if ltb n 10 then (b'0' + n) ∷ [] else more

-- std::to_string
unfoldable pub to_string : ℕ → Bytes
to_string n = digits (suc n) n
