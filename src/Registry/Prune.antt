-- ===== src/Registry/Prune.antt =====
-- `PruneStale` on the score of a phone.
use server_jt.Base.{ℕ, ◌+◌, ◌-◌, ◌≤◌, ◌≡◌, none, some, [], ◌∷◌, arith}
use server_jt.Base.Int.{ℤ, pos, sub_ℕ}
use server_jt.Registry.Score.{to_float64, to_score, to_float64_mono}
use server_jt.Protocol.Types.{Bytes}
use server_jt.Registry.Redis.{prune_stale, above, online_after}

not_above :
    (last : ℕ) (z : ℤ) (n : ℕ)
    → z ≡ pos n
    → last ≤ n
    → above (to_score z) (some (to_float64 last)) ≡ none
unfolding above to_score
not_above last z n e h = rw e (ground (arith, to_float64_mono last n h))

difference : (m n : ℕ) → n ≤ m → sub_ℕ m n ≡ pos (m - n)
difference m n h = ground arith

-- A prune removes a phone whose score was set `ttl` before or earlier.
pub online_after-prune_stale :
    (p : Bytes) (nanos ttl last : ℕ)
    → last + ttl ≤ nanos
    → online_after p (prune_stale nanos ttl ∷ []) (some (to_float64 last)) ≡ none
unfolding online_after prune_stale
online_after-prune_stale p nanos ttl last h =
    not_above last (sub_ℕ nanos ttl) (nanos - ttl) (difference nanos ttl (omega arith))
      (omega arith)
