-- ===== src/Protocol/Extras.antt =====
-- The additional items of a location report: the map `Extras` and the loop of `DecodeLocation`
-- that fills it (pkg/protocol/decoder.go).
pub mod Loop
use server_jt.Base.{
  ℕ, zero, suc, ◌≡◌, refl, Option, none, some, List, [], ◌∷◌, ltb, ◌==◌, if◌then◌else◌, length,
  take, drop, arith, ==_refl,
}
use server_jt.Protocol.Types.{Bytes}

-- A `map[uint8][]byte` as the list of its entries, one for each key.
abbrev pub Extras : Type 0
Extras = List (ℕ × Bytes)

unfoldable pub lookup : ℕ → Extras → Option Bytes
lookup id ((other, value) ∷ items) = if other == id then some value else lookup id items
lookup id [] = none

unfoldable pub insert : ℕ → Bytes → Extras → Extras
insert id value ((other, old) ∷ items) =
    let kept = insert id value items in
    if other == id then (id, value) ∷ items else (other, old) ∷ kept
insert id value [] = (id, value) ∷ []

pub lookup-insert :
    (id other : ℕ) (value : Bytes) (items : Extras)
    → lookup other (insert id value items)
      ≡ (if id == other then some value else lookup other items)
unfolding lookup insert
lookup-insert id other value ((k, old) ∷ items) = ground (arith, lookup-insert id other value items)
lookup-insert id other value [] = refl

-- The loop on the bytes that are left, with `fuel` rounds.
unfoldable pub tlv_loop : ℕ → Extras → Bytes → Extras
tlv_loop zero extras r = extras
tlv_loop (suc fuel) extras [] = extras
tlv_loop (suc fuel) extras (id ∷ []) = extras
tlv_loop (suc fuel) extras (id ∷ len ∷ r) =
    let more = tlv_loop fuel (insert id (take len r) extras) (drop len r) in
    if ltb (length r) len then extras else more

-- Each round takes two bytes at least, so as many rounds as there are bytes are enough.
unfoldable pub read_extras : Bytes → Extras
read_extras r = tlv_loop (length r) [] r
