-- ===== src/Forwarder/Json.antt =====
-- server/internal/forwarder/stream.go: `extrasToJSON`, and what a reader of its text gets back. Go
-- iterates over the map in any order; the list of the entries is in the order it takes.
use server_jt.Base.{
  ℕ, zero, suc, ◌+◌, ◌-◌, ◌*◌, ◌/◌, ◌%◌, ◌<◌, ◌≤◌, ◌≡◌, refl, ap, ◌∙◌, ◌&&◌, Option, none, some, [],
  ◌∷◌, ◌++◌, arith, All, leb, ltb, ◌==◌, if◌then◌else◌, length, length-append, append_assoc,
}
use server_jt.Base.Text.{ascii}
use server_jt.Protocol.Types.{Bytes}
use server_jt.Protocol.Extras.{Extras}

-- The digits of `%X`.
unfoldable pub hex_digit : ℕ → ℕ
hex_digit n = if ltb n 10 then b'0' + n else b'A' + (n - 10)

-- `%02X` of a byte.
unfoldable pub hex_byte : ℕ → Bytes
hex_byte b = hex_digit (b / 16) ∷ hex_digit (b % 16) ∷ []

-- `%X` of a slice of bytes.
unfoldable pub hex : Bytes → Bytes
hex [] = []
hex (b ∷ bs) = hex_byte b ++ hex bs

unfoldable pub json_item : ℕ → Bytes → Bytes
json_item id raw = ascii "\"0x" ++ (hex_byte id ++ (ascii "\":\"" ++ (hex raw ++ ascii "\"")))

-- `strings.Join` of the items with commas.
unfoldable pub joined_items : Extras → Bytes
joined_items [] = []
joined_items ((id, raw) ∷ []) = json_item id raw
joined_items ((id, raw) ∷ x ∷ xs) = json_item id raw ++ b',' ∷ joined_items (x ∷ xs)

unfoldable pub extras_to_json : Extras → Bytes
extras_to_json xs = b'{' ∷ (joined_items xs ++ b'}' ∷ [])

-- The value of a hexadecimal digit in upper case.
hex_value : ℕ → Option ℕ
hex_value c =
    if leb b'0' c && leb c b'9'
    then some (c - b'0')
    else if leb b'A' c && leb c b'F'
    then some (c - b'A' + 10)
    else none

both : Option ℕ → Option ℕ → Option ℕ
both (some hi) (some lo) = some (hi * 16 + lo)
both (some hi) none = none
both none o = none

pair_value : ℕ → ℕ → Option ℕ
pair_value a b = both (hex_value a) (hex_value b)

-- A byte before what follows it, or the end at the text.
read_on : Option ℕ → Bytes × Bytes → Bytes → Bytes × Bytes
read_on none later text = ([], text)
read_on (some v) (raw, rest) text = (v ∷ raw, rest)

-- The bytes that are written in pairs of digits, and the text behind them.
pub read_hex : Bytes → Bytes × Bytes
unfolding read_on
read_hex (a ∷ b ∷ r) = read_on (pair_value a b) (read_hex r) (a ∷ b ∷ r)
read_hex (a ∷ []) = ([], a ∷ [])
read_hex [] = ([], [])

hex_value-hex_digit : (n : ℕ) → n < 16 → hex_value (hex_digit n) ≡ some n
unfolding hex_value hex_digit
hex_value-hex_digit n h = ground arith

pair_value-hex_byte :
    (b : ℕ) → b < 256 → pair_value (hex_digit (b / 16)) (hex_digit (b % 16)) ≡ some b
unfolding pair_value both
pair_value-hex_byte b h =
    ap (λ o. both o (hex_value (hex_digit (b % 16)))) (hex_value-hex_digit (b / 16) (omega arith))
    ∙ ap (both (some (b / 16))) (hex_value-hex_digit (b % 16) (omega arith))
    ∙ ap some (omega arith)

quote_ends : (c : ℕ) → pair_value b'"' c ≡ none
unfolding pair_value both hex_value
quote_ends c = refl

pub read_hex-hex :
    (raw rest : Bytes) (c : ℕ)
    → All (λ b. b < 256) raw
    → read_hex (hex raw ++ b'"' ∷ c ∷ rest) ≡ (raw, b'"' ∷ c ∷ rest)
unfolding read_hex hex hex_byte read_on
read_hex-hex [] rest c h = ap (λ o. read_on o (read_hex rest) (b'"' ∷ c ∷ rest)) (quote_ends c)
read_hex-hex (b ∷ raw) rest c h =
    ap (λ o. read_on o (read_hex (hex raw ++ b'"' ∷ c ∷ rest)) (hex (b ∷ raw) ++ b'"' ∷ c ∷ rest))
      (pair_value-hex_byte b h.0)
    ∙ ap (λ p. read_on (some b) p []) (read_hex-hex raw rest c h.1)

item_of : Option ℕ → Bytes × Bytes → Option ((ℕ × Bytes) × Bytes)
item_of none p = none
item_of (some id) (raw, rest) = some ((id, raw), rest)

-- An item and the text behind it, skipping the punctuation.
read_item : Bytes → Option ((ℕ × Bytes) × Bytes)
unfolding item_of
read_item (q ∷ z ∷ x ∷ a ∷ b ∷ q2 ∷ colon ∷ q3 ∷ r) = item_of (pair_value a b) (read_hex r)
read_item short = none

-- The item is followed by its closing quote, and a comma if there is another one.
next_items : Option ((ℕ × Bytes) × Bytes) → (Bytes → Extras) → Extras
next_items none go = []
next_items (some (x, quote ∷ sep ∷ rest)) go = if sep == b',' then x ∷ go rest else x ∷ []
next_items (some (x, short)) go = x ∷ []

pub read_items : ℕ → Bytes → Extras
unfolding next_items read_item
read_items zero s = []
read_items (suc fuel) s = next_items (read_item s) (λ rest. read_items fuel rest)

-- The text behind the opening brace.
pub extras_from_json : Bytes → Extras
unfolding read_items
extras_from_json [] = []
extras_from_json (brace ∷ s) = read_items (length s) s

read_item-json_item :
    (id : ℕ) (raw rest : Bytes) (c : ℕ)
    → id < 256
    → All (λ b. b < 256) raw
    → read_item (json_item id raw ++ c ∷ rest) ≡ some ((id, raw), b'"' ∷ c ∷ rest)
unfolding read_item json_item hex_byte item_of
read_item-json_item id raw rest c hi hr =
    ap (λ t. item_of (pair_value (hex_digit (id / 16)) (hex_digit (id % 16))) (read_hex t))
      (append_assoc (hex raw) (b'"' ∷ []) (c ∷ rest))
    ∙ ap (item_of (pair_value (hex_digit (id / 16)) (hex_digit (id % 16))))
        (read_hex-hex raw rest c hr)
    ∙ ap (λ o. item_of o (raw, b'"' ∷ c ∷ rest)) (pair_value-hex_byte id hi)

abbrev pub IsExtras : Extras → Type 0
IsExtras xs = All (λ x. (x.0 < 256) × All (λ b. b < 256) x.1) xs

read_items-joined :
    (xs : Extras) (fuel : ℕ)
    → IsExtras xs
    → length xs ≤ fuel
    → read_items fuel (joined_items xs ++ b'}' ∷ []) ≡ xs
unfolding read_items joined_items next_items read_item
read_items-joined [] zero h n = refl
read_items-joined [] (suc fuel) h n = refl
read_items-joined (x ∷ xs) zero h n = absurd (omega arith)
read_items-joined ((id, raw) ∷ []) (suc fuel) h n =
    ap (λ o. next_items o (λ r. read_items fuel r)) (read_item-json_item id raw [] b'}' h.0.0 h.0.1)
read_items-joined ((id, raw) ∷ y ∷ xs) (suc fuel) h n =
    let more = joined_items (y ∷ xs) ++ b'}' ∷ [] in
    ap (λ t. next_items (read_item t) (λ r. read_items fuel r))
      (append_assoc (json_item id raw) (b',' ∷ joined_items (y ∷ xs)) (b'}' ∷ []))
    ∙ ap (λ o. next_items o (λ r. read_items fuel r))
        (read_item-json_item id raw more b',' h.0.0 h.0.1)
    ∙ ap (λ t. (id, raw) ∷ t) (read_items-joined (y ∷ xs) fuel h.1 (omega arith))

length-joined : (xs : Extras) → length xs ≤ length (joined_items xs)
unfolding joined_items json_item
length-joined [] = omega arith
length-joined ((id, raw) ∷ []) = omega arith
length-joined ((id, raw) ∷ y ∷ xs) =
    omega (
      arith,
      length-append (json_item id raw) (b',' ∷ joined_items (y ∷ xs)),
      length-joined (y ∷ xs),
    )

-- The text of the extras determines them: each identifier and each value of bytes is read back, in
-- the order in which they were written.
pub extras_from_json-extras_to_json :
    (xs : Extras) → IsExtras xs → extras_from_json (extras_to_json xs) ≡ xs
unfolding extras_from_json extras_to_json
extras_from_json-extras_to_json xs h =
    read_items-joined xs (length (joined_items xs ++ b'}' ∷ [])) h
      (omega (arith, length-joined xs, length-append (joined_items xs) (b'}' ∷ [])))
