-- ===== src/Ndjson.antt =====
-- Newline-delimited JSON: crates/gpui-agent/src/ndjson.rs. A reader is the list of the bytes that it
-- has still to give, and what serde writes for a value is a list of bytes.
pub mod Lines
use gpui_agent.Base.{
  ℕ, zero, suc, ◌+◌, ◌-◌, Bool, true, false, ◌&&◌, ◌||◌, not, Option, none, some, List, [], ◌∷◌,
  ◌++◌, ◌==◌, nat_eq, leb, ltb, if◌then◌else◌, length, all,
}

abbrev pub newline : ℕ
newline = 10

abbrev carriage_return : ℕ
carriage_return = 13

-- `u8::is_ascii_whitespace`
abbrev is_ascii_whitespace : ℕ → Bool
is_ascii_whitespace b = b == 32 || b == 9 || b == 10 || b == 12 || b == 13

unfoldable pub line_is_blank : List ℕ → Bool
line_is_blank = all is_ascii_whitespace

-- The bytes that `write_json_line` writes for a value that serde writes as `json`.
unfoldable pub write_json_line : List ℕ → List ℕ
write_json_line json = json ++ newline ∷ []

-- `str::from_utf8`: how many continuation bytes are due, and the range of the next of them.
record Due : Type 0 where
  count : ℕ
  low : ℕ
  high : ℕ

abbrev due : ℕ → ℕ → ℕ → Option Due
due count low high = some (record { count = count; low = low; high = high })

abbrev is_in : ℕ → ℕ → ℕ → Bool
is_in low high b = leb low b && leb b high

-- After the first byte of a character.
abbrev utf8_lead : ℕ → Option Due
utf8_lead b =
    if ltb b 0x80
    then due 0 0 0
    else if is_in 0xc2 0xdf b
    then due 1 0x80 0xbf
    else if b == 0xe0
    then due 2 0xa0 0xbf
    else if b == 0xed
    then due 2 0x80 0x9f
    else if is_in 0xe1 0xef b
    then due 2 0x80 0xbf
    else if b == 0xf0
    then due 3 0x90 0xbf
    else if is_in 0xf1 0xf3 b
    then due 3 0x80 0xbf
    else if b == 0xf4
    then due 3 0x80 0x8f
    else none

abbrev utf8_next : Due → ℕ → Option Due
utf8_next d b =
    if d.count == 0
    then utf8_lead b
    else if is_in d.low d.high b
    then due (d.count - 1) 0x80 0xbf
    else none

utf8_from : Option Due → List ℕ → Bool
utf8_from none bs = false
utf8_from (some d) [] = d.count == 0
utf8_from (some d) (b ∷ bs) = utf8_from (utf8_next d b) bs

unfoldable pub is_utf8 : List ℕ → Bool
unfolding utf8_from
is_utf8 bs = utf8_from (due 0 0 0) bs

-- `reader.take(limit).read_until(b'\n', buf)`: the bytes read and those that are left.
unfoldable pub read_until : ℕ → List ℕ → List ℕ × List ℕ
read_until zero bs = ([], bs)
read_until (suc limit) [] = ([], [])
read_until (suc limit) (b ∷ bs) =
    let (line, rest) = read_until limit bs in
    if b == newline then (b ∷ [], bs) else (b ∷ line, rest)

-- `if buf.last() == Some(&byte) { buf.pop(); }`
unfoldable pub pop_if : ℕ → List ℕ → List ℕ
pop_if byte [] = []
pop_if byte (b ∷ []) = if b == byte then [] else b ∷ []
pop_if byte (b ∷ c ∷ bs) = b ∷ pop_if byte (c ∷ bs)

abbrev ends_in : ℕ → List ℕ → Bool
ends_in byte [] = false
ends_in byte (b ∷ []) = b == byte
ends_in byte (b ∷ c ∷ bs) = ends_in byte (c ∷ bs)

pub data Line : Type 0 where
  eof too_long not_utf8 : Line
  line : List ℕ → Line

-- The line without its end.
abbrev stripped : List ℕ → List ℕ
stripped buf = if ends_in newline buf then pop_if carriage_return (pop_if newline buf) else buf

abbrev checked : List ℕ → Line
checked buf = if is_utf8 buf then Line.line buf else Line.not_utf8

abbrev outcome : ℕ → List ℕ → Line
outcome max_bytes buf =
    if length buf == 0
    then Line.eof
    else if ltb max_bytes (length buf)
    then Line.too_long
    else checked (stripped buf)

-- What one call reads, and the reader after it.
unfoldable pub read_limited_line_into : ℕ → List ℕ → Line × List ℕ
unfolding read_until pop_if is_utf8
read_limited_line_into max_bytes reader =
    let (buf, rest) = read_until (max_bytes + 1) reader in (outcome max_bytes buf, rest)
