-- ===== src/Protocol/Extras/Loop.antt =====
-- The loop that reads the additional items: it ends, and it reads back what was written.
use server_jt.Base.{
  ℕ, zero, suc, ◌≤◌, ◌<◌, ◌≡◌, refl, ap, ◌∙◌, ◌⊎◌, inl, inr, Option, none, some, List, [], ◌∷◌,
  ◌++◌, arith, ◌==◌, if◌then◌else◌, length, take, drop, length-append, length-drop,
  take-append_left, drop-append_left, append_assoc,
}
use server_jt.Protocol.Types.{Bytes}
use server_jt.Protocol.Extras.{Extras, lookup, insert, lookup-insert, tlv_loop, read_extras}

-- The result does not depend on the fuel once there is a round for each byte.
tlv_loop_fuel :
    (n m : ℕ) (extras : Extras) (r : Bytes)
    → length r ≤ n
    → length r ≤ m
    → tlv_loop n extras r ≡ tlv_loop m extras r
unfolding tlv_loop
tlv_loop_fuel zero zero extras r hn hm = refl
tlv_loop_fuel zero (suc m) extras [] hn hm = refl
tlv_loop_fuel zero (suc m) extras (id ∷ r) hn hm = absurd (omega arith)
tlv_loop_fuel (suc n) zero extras [] hn hm = refl
tlv_loop_fuel (suc n) zero extras (id ∷ r) hn hm = absurd (omega arith)
tlv_loop_fuel (suc n) (suc m) extras [] hn hm = refl
tlv_loop_fuel (suc n) (suc m) extras (id ∷ []) hn hm = refl
tlv_loop_fuel (suc n) (suc m) extras (id ∷ len ∷ r) hn hm =
    ground
      (arith, length-drop len r, tlv_loop_fuel n m (insert id (take len r) extras) (drop len r))

-- The loop as the source writes it, with no fuel: `extras` is what the rounds before have read.
pub read_from : Extras → Bytes → Extras
read_from extras r = tlv_loop (length r) extras r

read_from_short : (extras : Extras) (r : Bytes) → length r < 2 → read_from extras r ≡ extras
unfolding read_from tlv_loop
read_from_short extras [] h = refl
read_from_short extras (id ∷ []) h = refl
read_from_short extras (id ∷ len ∷ r) h = absurd (omega arith)

read_from_item :
    (extras : Extras) (id : ℕ) (value rest : Bytes)
    → read_from extras (id ∷ length value ∷ (value ++ rest))
      ≡ read_from (insert id value extras) rest
unfolding read_from tlv_loop
read_from_item extras id value rest = ground (
  arith,
  length-append value rest,
  take-append_left value rest,
  drop-append_left value rest,
  tlv_loop_fuel (suc (length (value ++ rest))) (length rest) (insert id value extras) rest,
)

-- The wire form of items, and the map that they fill, the last value of an identifier first.
unfoldable pub wire : List (ℕ × Bytes) → Bytes
wire [] = []
wire ((id, value) ∷ items) = id ∷ length value ∷ (value ++ wire items)

pub store_all : List (ℕ × Bytes) → Extras → Extras
store_all [] extras = extras
store_all ((id, value) ∷ items) extras = store_all items (insert id value extras)

-- A trailer behind which the loop stops: fewer than two bytes, or a length that overruns the body.
abbrev pub IsBroken : Bytes → Type 0
IsBroken t =
    (length t < 2) ⊎ ((id : ℕ) × (len : ℕ) × (r : Bytes) × (t ≡ id ∷ len ∷ r) × (length r < len))

read_from_broken : (extras : Extras) (t : Bytes) → IsBroken t → read_from extras t ≡ extras
unfolding read_from tlv_loop
read_from_broken extras t (inl h) = read_from_short extras t h
read_from_broken extras t (inr (id, len, r, e, h)) = ap (read_from extras) e ∙ ground arith

read_from-wire :
    (items : List (ℕ × Bytes)) (extras : Extras) (t : Bytes)
    → IsBroken t
    → read_from extras (wire items ++ t) ≡ store_all items extras
unfolding wire store_all
read_from-wire [] extras t h = read_from_broken extras t h
read_from-wire ((id, value) ∷ items) extras t h =
    ap (λ u. read_from extras (id ∷ length value ∷ u)) (append_assoc value (wire items) t)
    ∙ read_from_item extras id value (wire items ++ t)
    ∙ read_from-wire items (insert id value extras) t h

-- Well-formed items are all read, in order and with later values over earlier ones, and a broken
-- trailer behind them is ignored without harm to what was read.
pub read_extras-wire :
    (items : List (ℕ × Bytes)) (t : Bytes)
    → IsBroken t
    → read_extras (wire items ++ t) ≡ store_all items []
unfolding read_extras read_from
read_extras-wire items t h = read_from-wire items [] t h

-- The last value written for an identifier.
pub last_value : ℕ → List (ℕ × Bytes) → Option Bytes → Option Bytes
last_value k [] old = old
last_value k ((id, value) ∷ items) old = last_value k items (if id == k then some value else old)

lookup-store_all :
    (k : ℕ) (items : List (ℕ × Bytes)) (extras : Extras)
    → lookup k (store_all items extras) ≡ last_value k items (lookup k extras)
unfolding store_all last_value
lookup-store_all k [] extras = refl
lookup-store_all k ((id, value) ∷ items) extras =
    lookup-store_all k items (insert id value extras)
    ∙ ap (last_value k items) (lookup-insert id k value extras)

-- Behind well-formed items and a trailer that ends the loop, the map gives each identifier the last
-- value on the wire, and nothing for the others.
pub lookup-read_extras :
    (k : ℕ) (items : List (ℕ × Bytes)) (t : Bytes)
    → IsBroken t
    → lookup k (read_extras (wire items ++ t)) ≡ last_value k items none
unfolding lookup
lookup-read_extras k items t h =
    ap (lookup k) (read_extras-wire items t h) ∙ lookup-store_all k items []
