-- ===== src/Hex.antt =====
-- `encoding/hex`, as merkle.go uses it for roots, leaves and siblings.
use aic_verifier.Prelude.{
  ℕ, suc, ◌+◌, ◌-◌, ◌*◌, ◌/◌, ◌%◌, ◌≤◌, ◌<◌, ◌≡◌, refl, true, ◌&&◌, Option, none, some, [], ◌∷◌,
  arith, get_elem?, leb, ltb, if◌then◌else◌,
}
use aic_verifier.Merkle.{Bytes, ◌>>=◌}

-- the digits are written in lower case
unfoldable pub hex_digit : ℕ → ℕ
hex_digit n = if ltb n 10 then 48 + n else 87 + n

-- `EncodeToString`, as the bytes of the text
unfoldable pub hex_encode : Bytes → Bytes
hex_encode [] = []
hex_encode (b ∷ bs) = hex_digit (b / 16) ∷ hex_digit (b % 16) ∷ hex_encode bs

-- both cases are read
unfoldable pub from_hex_digit : ℕ → Option ℕ
from_hex_digit c =
    if leb 48 c && leb c 57
    then some (c - 48)
    else if leb 97 c && leb c 102
    then some (c - 87)
    else if leb 65 c && leb c 70
    then some (c - 55)
    else none

-- `DecodeString`: none for its error
unfoldable pub hex_decode : Bytes → Option Bytes
hex_decode [] = some []
hex_decode (a ∷ []) = none
hex_decode (a ∷ b ∷ rest) = do
  hi ← from_hex_digit a
  lo ← from_hex_digit b
  bs ← hex_decode rest
  some ((hi * 16 + lo) ∷ bs)

abbrev pub AllBytes : Bytes → Type 0
AllBytes [] = Unit
AllBytes (b ∷ bs) = (b ≤ 255) × AllBytes bs

from_hex_digit-hex_digit : (n : ℕ) → n < 16 → from_hex_digit (hex_digit n) ≡ some n
unfolding from_hex_digit hex_digit
from_hex_digit-hex_digit n h = ground arith

-- Decoding gives back the bytes that were encoded.
pub hex_decode-hex_encode : (bs : Bytes) → AllBytes bs → hex_decode (hex_encode bs) ≡ some bs
unfolding hex_decode hex_encode
hex_decode-hex_encode [] h = refl
hex_decode-hex_encode (b ∷ bs) h =
    let whole : b / 16 * 16 + b % 16 ≡ b = omega arith in
    rw (
      from_hex_digit-hex_digit (b / 16) (omega arith),
      from_hex_digit-hex_digit (b % 16) (omega arith),
      hex_decode-hex_encode bs h.1,
      whole,
    )

pub AllBytes-of_get_elem? :
    (bs : Bytes) → ((i x : ℕ) → get_elem? bs i ≡ some x → leb x 255 ≡ true) → AllBytes bs
AllBytes-of_get_elem? [] h = tt
AllBytes-of_get_elem? (b ∷ bs) h =
    (ground (arith, h 0 b refl), AllBytes-of_get_elem? bs (λ i x e. h (suc i) x e))
