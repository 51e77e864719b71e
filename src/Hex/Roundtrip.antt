-- ===== src/Hex/Roundtrip.antt =====
-- What `hex_encode` writes, `hex_decode` reads.
use mathlib.Core.List.{reverse, reverse-reverse, reverse-cons}
use gpui_agent.Base.{
  ℕ, ◌/◌, ◌%◌, ◌<◌, ◌≡◌, refl, sym, ap, ◌∙◌, true, false, some, List, [], ◌∷◌, arith, All, beq_refl,
  subst, All-append,
}
use gpui_agent.Base.Text.{Text, is_whitespace, trim_start, trim_end, trim, text_eq}
use gpui_agent.Hex.{
  hex_digit, hex_encode, hex_nibble, decode_pairs, hex_decode, hmac_hex, hmac_verify,
}

hex_nibble-hex_digit : (n : ℕ) → n < 16 → hex_nibble (hex_digit n) ≡ some n
unfolding hex_nibble
hex_nibble-hex_digit n h = ground arith

is_whitespace-hex_digit : (n : ℕ) → n < 16 → is_whitespace (hex_digit n) ≡ false
unfolding is_whitespace
is_whitespace-hex_digit n h = ground arith

abbrev pub IsByte : ℕ → Type 0
IsByte b = b < 256

abbrev IsInk : ℕ → Type 0
IsInk c = is_whitespace c ≡ false

decode_pairs-hex_encode : (bs : List ℕ) → All IsByte bs → decode_pairs (hex_encode bs) ≡ some bs
unfolding decode_pairs hex_encode
decode_pairs-hex_encode [] h = refl
decode_pairs-hex_encode (b ∷ bs) h =
    rw
      (
        hex_nibble-hex_digit (b / 16) (omega (arith, h.0)),
        hex_nibble-hex_digit (b % 16) (omega arith),
        decode_pairs-hex_encode bs h.1,
      )
      (ap (λ c. some (c ∷ bs)) (omega arith))

All-hex_encode : (bs : List ℕ) → All IsByte bs → All IsInk (hex_encode bs)
unfolding hex_encode
All-hex_encode [] h = tt
All-hex_encode (b ∷ bs) h = (
  is_whitespace-hex_digit (b / 16) (omega (arith, h.0)),
  (is_whitespace-hex_digit (b % 16) (omega arith), All-hex_encode bs h.1),
)

trim_start_ink : (s : Text) → All IsInk s → trim_start s ≡ s
unfolding trim_start
trim_start_ink [] h = refl
trim_start_ink (c ∷ s) h = rw (h.0)

All-reverse : (s : Text) → All IsInk s → All IsInk (reverse s)
All-reverse [] h = tt
All-reverse (c ∷ s) h =
    subst (All IsInk) (sym (reverse-cons c s))
      (All-append IsInk (reverse s) (c ∷ []) (All-reverse s h.1) (h.0, tt))

trim_ink : (s : Text) → All IsInk s → trim s ≡ s
unfolding trim
trim_ink s h =
    ap trim_end (trim_start_ink s h)
    ∙ unfold trim_end in
      (ap reverse (trim_start_ink (reverse s) (All-reverse s h)) ∙ reverse-reverse s)

-- Any bytes come back from their hex form.
pub hex_decode-hex_encode : (bs : List ℕ) → All IsByte bs → hex_decode (hex_encode bs) ≡ some bs
unfolding hex_decode
hex_decode-hex_encode bs h =
    ap decode_pairs (trim_ink (hex_encode bs) (All-hex_encode bs h)) ∙ decode_pairs-hex_encode bs h

-- A client that holds the token is let in: the hex of the MAC verifies, whatever the MAC is, as
-- long as it yields bytes. And what verifies is the hex of no other byte string.
pub hmac_verify-hmac_hex :
    (mac : List ℕ → List ℕ → List ℕ) (token nonce : List ℕ)
    → All IsByte (mac token nonce)
    → (hmac_verify mac token nonce (hmac_hex mac token nonce) ≡ true)
      × ((bs : List ℕ)
          → All IsByte bs
          → hmac_verify mac token nonce (hex_encode bs) ≡ true
          → mac token nonce ≡ bs)
unfolding hmac_verify hmac_hex
hmac_verify-hmac_hex mac token nonce h = (
  rw (hex_decode-hex_encode (mac token nonce) h, hmac_verify) (beq_refl (mac token nonce)),
  λ bs hb v.
      (text_eq.beq_iff (mac token nonce) bs).0 (rw (hex_decode-hex_encode bs hb, hmac_verify) at v),
)
