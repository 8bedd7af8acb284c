-- ===== src/Access/Hex.antt =====
-- encoding/hex as gateway/auth.go uses it: EncodeToString writes two lower case digits for a byte, and
-- DecodeString reads digits of either case and fails on any other byte and on an odd length.
use voiceagent.Base.{
  ℕ, ◌+◌, ◌-◌, ◌*◌, ◌/◌, ◌%◌, ◌<◌, ◌≡◌, refl, false, ◌&&◌, [], ◌∷◌, ◌++◌, Option, none, some,
  if◌then◌else◌, ltb, leb, ◌==◌, arith, Text, All, cut,
}

-- The digit of a number below 16.
unfoldable digit : ℕ → ℕ
digit n = if ltb n 10 then 48 + n else 87 + n

unfoldable pub hex_encode : Text → Text
unfolding digit
hex_encode [] = []
hex_encode (b ∷ bs) = digit (b / 16) ∷ digit (b % 16) ∷ hex_encode bs

unfoldable undigit : ℕ → Option ℕ
undigit c =
    if leb 48 c && leb c 57
    then some (c - 48)
    else if leb 97 c && leb c 102
    then some (c - 87)
    else if leb 65 c && leb c 70
    then some (c - 55)
    else none

-- Both digits of a byte before the bytes that follow.
abbrev join_byte : Option ℕ → Option ℕ → Option Text → Option Text
join_byte (some h) (some l) (some bs) = some ((h * 16 + l) ∷ bs)
join_byte (some h) (some l) none = none
join_byte (some h) none rest = none
join_byte none low rest = none

unfoldable pub hex_decode : Text → Option Text
unfolding undigit
hex_decode [] = some []
hex_decode (c ∷ []) = none
hex_decode (c ∷ d ∷ s) = join_byte (undigit c) (undigit d) (hex_decode s)

abbrev pub IsBytes : Text → Type 0
IsBytes = All (λ b. b < 256)

undigit-digit : (n : ℕ) → n < 16 → undigit (digit n) ≡ some n
unfolding digit undigit
undigit-digit n h = ground arith

byte_of_digits : (b : ℕ) → b < 256 → (b / 16 < 16) × ((b % 16 < 16) × (b / 16 * 16 + b % 16 ≡ b))
byte_of_digits b h = (omega arith, (omega arith, omega arith))

pub hex_decode-hex_encode : (bs : Text) → IsBytes bs → hex_decode (hex_encode bs) ≡ some bs
unfolding hex_encode hex_decode
hex_decode-hex_encode [] h = refl
hex_decode-hex_encode (b ∷ bs) (hb, hs) =
    let (p, (q, e)) = byte_of_digits b hb in
    rw (undigit-digit (b / 16) p, undigit-digit (b % 16) q, hex_decode-hex_encode bs hs, e) refl

-- A digit is no dot, so that the text before the first dot of a token is its whole payload.
digit-ne-dot : (n : ℕ) → (digit n == 46) ≡ false
unfolding digit
digit-ne-dot n = ground arith

pub cut-hex_encode :
    (bs rest : Text) → cut 46 (hex_encode bs ++ 46 ∷ rest) ≡ some (hex_encode bs, rest)
unfolding hex_encode cut
cut-hex_encode [] rest = refl
cut-hex_encode (b ∷ bs) rest =
    rw (digit-ne-dot (b / 16), digit-ne-dot (b % 16), cut-hex_encode bs rest) refl
