-- ===== src/Tests/Wire.antt =====
-- The event stream, the framing, the inbox and the authentication at concrete inputs.
use gpui_agent.Base.{
  ℕ, ◌-◌, ◌^◌, ◌≡◌, refl, true, false, none, some, List, [], ◌∷◌, ◌++◌, arith, take, filter, All,
}
use gpui_agent.Event.{new, push, since, is_newer}
use gpui_agent.Event.History.{numbered, push_all, Retains, push_all-new-Retains}
use gpui_agent.Event.Poll.{events-since, since-largest}
use gpui_agent.Hex.{hex_encode, hex_decode, hmac_verify, hmac_hex}
use gpui_agent.Hex.Roundtrip.{IsByte, hex_decode-hex_encode, hmac_verify-hmac_hex}
use gpui_agent.Ndjson.{write_json_line, read_limited_line_into, is_utf8, Line}
use gpui_agent.Ndjson.Lines.{read-write, read-full}
use gpui_agent.Mailbox
use gpui_agent.Mailbox.Order
use gpui_agent.Mailbox.Order.{push_all-take}
use gpui_agent.Base.Text.{codes, text_eq}
use gpui_agent.Virtual.{keystroke_token}
use gpui_agent.Virtual.Plain.{IsPlain, keystroke_token-IsPlain}
use gpui_agent.Tests.Data.{history, add_request}

push_all-new-Retains_example : Retains 2 history (push_all (new 2) history)
push_all-new-Retains_example = push_all-new-Retains 2 history

events-since_example : since (push_all (new 2) history) (some 1) 5 ≡ record {
  events = take 2 (filter (is_newer (some 1)) (numbered 1 history));
  latest = 3;
  lagged = false;
}
unfolding since push_all push new
events-since_example = events-since 2 history 1 5 (omega arith) refl

since-largest_example : (since (push_all (new 2) history) (some (2 ^ 64 - 1)) 5).lagged ≡ true
since-largest_example = since-largest 2 history 5

hex_decode-hex_encode_example : hex_decode (hex_encode (255 ∷ 16 ∷ [])) ≡ some (255 ∷ 16 ∷ [])
hex_decode-hex_encode_example =
    hex_decode-hex_encode (255 ∷ 16 ∷ []) (omega arith, (omega arith, tt))

hmac_verify-hmac_hex_example :
    (hmac_verify
        (λ key message. message)
        (1 ∷ [])
        (9 ∷ [])
        (hmac_hex (λ key message. message) (1 ∷ []) (9 ∷ []))
      ≡ true)
    × ((bs : List ℕ)
        → All IsByte bs
        → hmac_verify (λ key message. message) (1 ∷ []) (9 ∷ []) (hex_encode bs) ≡ true
        → (9 ∷ []) ≡ bs)
hmac_verify-hmac_hex_example =
    hmac_verify-hmac_hex (λ key message. message) (1 ∷ []) (9 ∷ []) (omega arith, tt)

read-write_example :
    read_limited_line_into 4 (write_json_line (91 ∷ 93 ∷ []) ++ 49 ∷ [])
    ≡ (Line.line (91 ∷ 93 ∷ []), 49 ∷ [])
unfolding is_utf8
read-write_example =
    read-write 4 (91 ∷ 93 ∷ []) (49 ∷ []) (refl, (refl, tt)) refl refl (omega arith)

read-full_example :
    read_limited_line_into 2 (write_json_line (91 ∷ 93 ∷ []) ++ 49 ∷ []) ≡ (Line.too_long, 49 ∷ [])
read-full_example = read-full 2 (91 ∷ 93 ∷ []) (49 ∷ []) (refl, (refl, tt)) refl

push_all-take_example :
    let inbox = (Order.push_all ℕ ℕ Mailbox.new (add_request ∷ [])).0 in
    let replies = (Order.push_all ℕ ℕ Mailbox.new (add_request ∷ [])).1 in
    (Mailbox.take inbox ≡ (add_request ∷ [], Mailbox.new)) × (replies ≡ none ∷ [])
push_all-take_example = push_all-take ℕ ℕ (add_request ∷ [])

keystroke_token-IsPlain_example : IsPlain (keystroke_token (codes " Enter "))
keystroke_token-IsPlain_example = keystroke_token-IsPlain (codes " Enter ")
