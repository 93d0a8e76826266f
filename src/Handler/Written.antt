-- ===== src/Handler/Written.antt =====
-- The frame that a connection was sent last.
use server_jt.Base.{ℕ, ◌≡◌, ◌≢◌, sym, List, [], ◌∷◌, ◌++◌, ◌==◌, if◌then◌else◌, ==_ne, append-nil}
use server_jt.Protocol.Types.{Bytes}
use server_jt.World.{Effect, wrote}

unfoldable pub newest : ℕ → List Effect → Bytes
newest sid [] = []
newest sid (wrote i bytes ∷ xs) = if i == sid then bytes else newest sid xs
newest sid (x ∷ xs) = newest sid xs

-- All that a connection was sent, in its order.
unfoldable pub writes_of : ℕ → List Effect → Bytes
writes_of sid [] = []
writes_of sid (wrote i bytes ∷ xs) = writes_of sid xs ++ (if i == sid then bytes else [])
writes_of sid (x ∷ xs) = writes_of sid xs

-- What another connection is sent does not count.
pub writes_of-other :
    (i sid : ℕ) (bytes : Bytes) (xs : List Effect)
    → i ≢ sid
    → writes_of i (wrote sid bytes ∷ xs) ≡ writes_of i xs
unfolding writes_of
writes_of-other i sid bytes xs h = rw (==_ne sid i (λ e. h (sym e))) (append-nil (writes_of i xs))
