-- ===== src/Base/Numbers.antt =====
-- `strconv`: signed decimal numbers of 64 bits, and Booleans.
use Prim.Native.Nat.{ℕ, ◌+◌, ◌-◌, ◌*◌}
use mathlib.Core.Bool.{Bool, true, false, ◌&&◌, ◌||◌}
use mathlib.Core.Option.{Option, none, some}
use mathlib.Core.List.{List, [], ◌∷◌}
use server_jt.Base.Tests.{ltb, leb, ◌==◌, if◌then◌else◌}
use server_jt.Base.Int.{ℤ, pos, neg}
use server_jt.Base.Text.{ascii, same}

-- The digits of a number behind `acc`.
unfoldable pub parse_digits : ℕ → List ℕ → Option ℕ
parse_digits acc [] = some acc
parse_digits acc (c ∷ cs) =
    let rest = parse_digits (acc * 10 + (c - b'0')) cs in
    if leb b'0' c && leb c b'9' then rest else none

-- `ParseUint` wants a digit at least.
unfoldable pub parse_uint : List ℕ → Option ℕ
unfolding parse_digits
parse_uint [] = none
parse_uint (c ∷ cs) = parse_digits 0 (c ∷ cs)

-- The two range checks.
unfoldable pub positive : Option ℕ → Option ℤ
positive none = none
positive (some n) = if ltb n 9223372036854775808 then some (pos n) else none

unfoldable pub negative : Option ℕ → Option ℤ
negative none = none
negative (some n) = if leb n 9223372036854775808 then some (neg n) else none

-- `ParseInt(s, 10, 64)`, and `Atoi` where an `int` has 64 bits.
unfoldable pub parse_int : List ℕ → Option ℤ
unfolding parse_uint positive negative
parse_int [] = none
parse_int (c ∷ cs) =
    if c == b'+'
    then positive (parse_uint cs)
    else if c == b'-'
    then negative (parse_uint cs)
    else positive (parse_uint (c ∷ cs))

-- `ParseBool`.
unfoldable pub parse_bool : List ℕ → Option Bool
parse_bool s =
    if same s (ascii "1")
      || same s (ascii "t")
      || same s (ascii "T")
      || same s (ascii "true")
      || same s (ascii "TRUE")
      || same s (ascii "True")
    then some true
    else if same s (ascii "0")
        || same s (ascii "f")
        || same s (ascii "F")
        || same s (ascii "false")
        || same s (ascii "FALSE")
        || same s (ascii "False")
    then some false
    else none
