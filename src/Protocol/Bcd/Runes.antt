-- ===== src/Protocol/Bcd/Runes.antt =====
-- Go's `for i, ch := range s`: the runes of a string with their byte positions. A sequence that is
-- no valid UTF-8 yields U+FFFD and moves on by one byte.
use server_jt.Base.{
  ℕ, zero, suc, ◌+◌, ◌-◌, ◌*◌, ◌%◌, ◌<◌, ◌≡◌, refl, Bool, ◌&&◌, List, [], ◌∷◌, arith, ltb, leb,
  if◌then◌else◌, All,
}
use server_jt.Protocol.Types.{Bytes}

within : ℕ → ℕ → ℕ → Bool
within lo hi b = leb lo b && leb b hi

-- The rune and its width.
abbrev invalid : ℕ × ℕ
invalid = (0xfffd, 1)

two_bytes : ℕ → Bytes → ℕ × ℕ
two_bytes a (b ∷ r) = if within 0x80 0xbf b then (a % 32 * 64 + b % 64, 2) else invalid
two_bytes a [] = invalid

three_bytes : ℕ → Bytes → ℕ × ℕ
three_bytes a (b ∷ c ∷ r) =
    let lo : ℕ = if leb a 0xe0 then 0xa0 else 0x80 in
    let hi : ℕ = if ltb a 0xed then 0xbf else if ltb 0xed a then 0xbf else 0x9f in
    if within lo hi b && within 0x80 0xbf c
    then ((a % 16 * 64 + b % 64) * 64 + c % 64, 3)
    else invalid
three_bytes a (b ∷ []) = invalid
three_bytes a [] = invalid

four_bytes : ℕ → Bytes → ℕ × ℕ
four_bytes a (b ∷ c ∷ d ∷ r) =
    let lo : ℕ = if leb a 0xf0 then 0x90 else 0x80 in
    let hi : ℕ = if leb 0xf4 a then 0x8f else 0xbf in
    if within lo hi b && within 0x80 0xbf c && within 0x80 0xbf d
    then (((a % 8 * 64 + b % 64) * 64 + c % 64) * 64 + d % 64, 4)
    else invalid
four_bytes a (b ∷ c ∷ []) = invalid
four_bytes a (b ∷ []) = invalid
four_bytes a [] = invalid

decode_rune : ℕ → Bytes → ℕ × ℕ
unfolding two_bytes three_bytes four_bytes within
decode_rune a r =
    if ltb a 0x80
    then (a, 1)
    else if ltb a 0xc2
    then invalid
    else if ltb a 0xe0
    then two_bytes a r
    else if ltb a 0xf0
    then three_bytes a r
    else if ltb a 0xf5
    then four_bytes a r
    else invalid

-- `skip` bytes are left of the rune before; `i` is the position of the next byte.
unfoldable pub runes : ℕ → ℕ → Bytes → List (ℕ × ℕ)
unfolding decode_rune
runes skip i [] = []
runes (suc skip) i (a ∷ r) = runes skip (i + 1) r
runes zero i (a ∷ r) = let (ch, width) = decode_rune a r in (i, ch) ∷ runes (width - 1) (i + 1) r

-- The runes of an ASCII string are its bytes.
abbrev pub numbered : ℕ → Bytes → List (ℕ × ℕ)
numbered i [] = []
numbered i (a ∷ r) = (i, a) ∷ numbered (suc i) r

pub runes_ascii : (i : ℕ) (s : Bytes) → All (λ c. c < 128) s → runes 0 i s ≡ numbered i s
unfolding runes
runes_ascii i [] h = refl
runes_ascii i (a ∷ r) h = ground (arith, runes_ascii (i + 1) r h.1)
