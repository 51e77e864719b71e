-- ===== src/Hex.antt =====
-- The hand-rolled hex of crates/gpui-agent/src/hmac_auth.rs, and `hmac_verify` over it. A text is
-- its code points, a byte string its bytes. The MAC itself (crates `hmac` and `sha2`) is a parameter.
pub mod Roundtrip
use gpui_agent.Base.{
  ℕ, ◌+◌, ◌-◌, ◌*◌, ◌/◌, ◌%◌, ◌&&◌, Option, none, some, List, [], ◌∷◌, nat_eq, leb, if◌then◌else◌,
  Bool, false, ◌==◌,
}
use gpui_agent.Base.Text.{Text, trim, text_eq}

-- `HEX[i]`
abbrev hex_digit : ℕ → ℕ
hex_digit n = if leb n 9 then 48 + n else 87 + n

unfoldable pub hex_encode : List ℕ → Text
hex_encode [] = []
hex_encode (b ∷ bs) = hex_digit (b / 16) ∷ hex_digit (b % 16) ∷ hex_encode bs

unfoldable pub hex_nibble : ℕ → Option ℕ
hex_nibble b =
    if leb b'0' b && leb b b'9'
    then some (b - b'0')
    else if leb b'a' b && leb b b'f'
    then some (b - b'a' + 10)
    else if leb b'A' b && leb b b'F'
    then some (b - b'A' + 10)
    else none

abbrev both : Option ℕ → Option ℕ → Option (List ℕ) → Option (List ℕ)
both (some hi) (some lo) (some rest) = some ((hi * 16 + lo) ∷ rest)
both _ _ _ = none

-- The loop over the pairs. A text of odd length is refused, whatever it holds: so is one with a
-- character that is no hex digit, since each byte of such a character is none either.
decode_pairs : Text → Option (List ℕ)
decode_pairs [] = some []
decode_pairs (a ∷ []) = none
decode_pairs (a ∷ b ∷ s) = both (hex_nibble a) (hex_nibble b) (decode_pairs s)

unfoldable pub hex_decode : Text → Option (List ℕ)
unfolding decode_pairs hex_nibble
hex_decode s = decode_pairs (trim s)

-- `NONCE_LEN`
abbrev pub nonce_len : ℕ
nonce_len = 32

-- `hmac_verify`, with the MAC of a key and a message as `mac`.
unfoldable pub hmac_verify : (List ℕ → List ℕ → List ℕ) → List ℕ → List ℕ → Text → Bool
unfolding hex_decode
hmac_verify mac token nonce auth_hex = elim (hex_decode auth_hex) [
  | none ↦ false
  | some got ↦ mac token nonce == got
]

-- `hmac_hex`
unfoldable pub hmac_hex : (List ℕ → List ℕ → List ℕ) → List ℕ → List ℕ → Text
unfolding hex_encode
hmac_hex mac token nonce = hex_encode (mac token nonce)
