-- ===== src/Ndjson/Lines.antt =====
-- Reading back what crates/gpui-agent/src/ndjson.rs writes.
use gpui_agent.Base.{
  ℕ, zero, suc, ◌+◌, ◌≤◌, ◌<◌, ◌≡◌, refl, ap, ◌∙◌, true, false, List, [], ◌∷◌, ◌++◌, ◌==◌, nat_eq,
  if◌then◌else◌, if-both, length, arith, length-append, All, append_assoc,
}
use gpui_agent.Ndjson.{
  newline, carriage_return, write_json_line, is_utf8, read_until, pop_if, ends_in, Line, stripped,
  checked, outcome, read_limited_line_into,
}

-- No byte of the line ends a line.
abbrev pub IsWhole : List ℕ → Type 0
IsWhole json = All (λ b. b == newline ≡ false) json

read-whole :
    (limit : ℕ) (json rest : List ℕ)
    → IsWhole json
    → length json < limit
    → read_until limit (json ++ newline ∷ rest) ≡ (json ++ newline ∷ [], rest)
unfolding read_until
read-whole zero json rest w h = absurd (omega arith)
read-whole (suc limit) [] rest w h = refl
read-whole (suc limit) (b ∷ json) rest w h =
    rw w.0 (ap (λ (l, r). (b ∷ l, r)) (read-whole limit json rest w.1 (omega arith)))

read-bounded :
    (limit : ℕ) (reader : List ℕ)
    → (length (read_until limit reader).0 ≤ limit)
      × ((read_until limit reader).0 ++ (read_until limit reader).1 ≡ reader)
unfolding read_until
read-bounded zero reader = (omega arith, refl)
read-bounded (suc limit) [] = (omega arith, refl)
read-bounded (suc limit) (b ∷ bs) =
    let (shorter, whole) = read-bounded limit bs in
    if-both {A = List ℕ × List ℕ} (λ o. (length o.0 ≤ suc limit) × (o.0 ++ o.1 ≡ b ∷ bs))
      (b == newline) (omega arith, refl) (omega (arith, shorter), ap (◌∷◌ b) whole)

ends-newline : (json : List ℕ) → ends_in newline (json ++ newline ∷ []) ≡ true
ends-newline [] = refl
ends-newline (b ∷ []) = refl
ends-newline (b ∷ c ∷ json) = ends-newline (c ∷ json)

pop-newline : (json : List ℕ) → pop_if newline (json ++ newline ∷ []) ≡ json
unfolding pop_if
pop-newline [] = refl
pop-newline (b ∷ []) = refl
pop-newline (b ∷ c ∷ json) = ap (◌∷◌ b) (pop-newline (c ∷ json))

pop-other :
    (json : List ℕ) → ends_in carriage_return json ≡ false → pop_if carriage_return json ≡ json
unfolding pop_if
pop-other [] h = refl
pop-other (b ∷ []) h = rw h refl
pop-other (b ∷ c ∷ json) h = ap (◌∷◌ b) (pop-other (c ∷ json) h)

stripped-line :
    (json : List ℕ) → ends_in carriage_return json ≡ false → stripped (json ++ newline ∷ []) ≡ json
stripped-line json e = rw (ends-newline json, pop-newline json) (pop-other json e)

outcome-line :
    (max_bytes : ℕ) (json : List ℕ)
    → ends_in carriage_return json ≡ false
    → is_utf8 json ≡ true
    → length json < max_bytes
    → outcome max_bytes (json ++ newline ∷ []) ≡ Line.line json
outcome-line max_bytes json e u h =
    let n = length-append json (newline ∷ []) in
    let s =
      ap checked (stripped-line json e) ∙ ap (λ b. if b then Line.line json else Line.not_utf8) u in
    ground (arith, n, s, h)

outcome-full :
    (max_bytes : ℕ) (json : List ℕ)
    → length json ≡ max_bytes
    → outcome max_bytes (json ++ newline ∷ []) ≡ Line.too_long
outcome-full max_bytes json h = let n = length-append json (newline ∷ []) in ground (arith, n, h)

outcome-long :
    (max_bytes : ℕ) (buf : List ℕ) → outcome max_bytes buf ≡ Line.too_long → max_bytes < length buf
outcome-long max_bytes buf h = ground (arith, h)

-- A line that is written is read back, and the reader stands after it, if its bytes are UTF-8 with no
-- newline among them, do not end in a carriage return, and are fewer than `max_bytes`.
pub read-write :
    (max_bytes : ℕ) (json rest : List ℕ)
    → IsWhole json
    → ends_in carriage_return json ≡ false
    → is_utf8 json ≡ true
    → length json < max_bytes
    → read_limited_line_into max_bytes (write_json_line json ++ rest) ≡ (Line.line json, rest)
unfolding read_limited_line_into write_json_line
read-write max_bytes json rest w e u h =
    rw
      (
        append_assoc json (newline ∷ []) rest,
        read-whole (max_bytes + 1) json rest w (omega (arith, h)),
      )
      (ap (λ l. (l, rest)) (outcome-line max_bytes json e u h))

-- A line of exactly `max_bytes` bytes is refused, since the count includes the newline.
pub read-full :
    (max_bytes : ℕ) (json rest : List ℕ)
    → IsWhole json
    → length json ≡ max_bytes
    → read_limited_line_into max_bytes (write_json_line json ++ rest) ≡ (Line.too_long, rest)
unfolding read_limited_line_into write_json_line
read-full max_bytes json rest w h =
    rw
      (
        append_assoc json (newline ∷ []) rest,
        read-whole (max_bytes + 1) json rest w (omega (arith, h)),
      )
      (ap (λ l. (l, rest)) (outcome-full max_bytes json h))

-- One call takes at most `max_bytes + 1` bytes off the reader and leaves the others; when it refuses
-- the line as too long, it has taken exactly that many.
pub read-takes :
    (max_bytes : ℕ) (reader : List ℕ)
    → (taken : List ℕ) × (taken ++ (read_limited_line_into max_bytes reader).1 ≡ reader)
      × (length taken ≤ max_bytes + 1)
      × ((read_limited_line_into max_bytes reader).0 ≡ Line.too_long → length taken ≡ max_bytes + 1)
unfolding read_limited_line_into
read-takes max_bytes reader =
    let (shorter, whole) = read-bounded (max_bytes + 1) reader in
    let taken = (read_until (max_bytes + 1) reader).0 in
    (taken, whole, shorter, λ h. omega (arith, shorter, outcome-long max_bytes taken h))
