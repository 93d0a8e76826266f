-- ===== src/Protocol/Registration/Trim.antt =====
-- `nullTrimmed` on padded fields.
use server_jt.Base.{ℕ, zero, suc, ◌≡◌, refl, ap, [], ◌∷◌, ◌++◌, arith, replicate}
use server_jt.Protocol.Types.{Bytes}
use server_jt.Protocol.Registration.{null_trimmed, drop_padding}

null_trimmed_zeros : (n : ℕ) → null_trimmed (replicate n 0) ≡ []
unfolding null_trimmed drop_padding
null_trimmed_zeros zero = refl
null_trimmed_zeros (suc n) = rw (null_trimmed_zeros n)

pub null_trimmed-padded : (s : Bytes) (n : ℕ) → null_trimmed (s ++ replicate n 0) ≡ null_trimmed s
unfolding null_trimmed
null_trimmed-padded [] n = null_trimmed_zeros n
null_trimmed-padded (b ∷ s) n = ap (drop_padding b) (null_trimmed-padded s n)

trimmed_again :
    (b : ℕ) (t : Bytes) → null_trimmed t ≡ t → null_trimmed (drop_padding b t) ≡ drop_padding b t
unfolding null_trimmed drop_padding
trimmed_again b [] h = ground arith
trimmed_again b (c ∷ t) h = rw h

-- Trimming twice is trimming once.
pub null_trimmed-null_trimmed : (s : Bytes) → null_trimmed (null_trimmed s) ≡ null_trimmed s
unfolding null_trimmed
null_trimmed-null_trimmed [] = refl
null_trimmed-null_trimmed (b ∷ s) = trimmed_again b (null_trimmed s) (null_trimmed-null_trimmed s)
