-- ===== src/Protocol/Frame/Escape.antt =====
-- The escaping of `WriteFrame` against the collecting loop of `ReadFrame`.
use server_jt.Base.{
  ℕ, ◌≡◌, ◌≢◌, refl, sym, ap, ◌∙◌, [], ◌∷◌, ◌++◌, arith, append-nil, append_assoc, ==_ne, All,
  ℕ_discrete,
}
use server_jt.Protocol.Types.{Bytes}
use server_jt.Protocol.Frame.{ReadError, ok, flag_byte, skip_to_flag, collect, escape}

-- One step of the loop on each kind of byte.
collect_plain :
    (e : ReadError) (raw : Bytes) (b : ℕ) (bs : Bytes)
    → b ≢ 0x7e
    → b ≢ 0x7d
    → collect e raw (b ∷ bs) ≡ collect e (raw ++ b ∷ []) bs
unfolding collect
collect_plain e raw b [] hf he = ground arith
collect_plain e raw b (c ∷ bs) hf he = ground arith

pub collect_flag : (e : ReadError) (raw bs : Bytes) → collect e raw (0x7e ∷ bs) ≡ ok (raw, bs)
unfolding collect
collect_flag e raw [] = refl
collect_flag e raw (c ∷ bs) = refl

collect_01 :
    (e : ReadError) (raw bs : Bytes)
    → collect e raw (0x7d ∷ 0x01 ∷ bs) ≡ collect e (raw ++ 0x7d ∷ []) bs
unfolding collect
collect_01 e raw bs = refl

collect_02 :
    (e : ReadError) (raw bs : Bytes)
    → collect e raw (0x7d ∷ 0x02 ∷ bs) ≡ collect e (raw ++ 0x7e ∷ []) bs
unfolding collect
collect_02 e raw bs = refl

-- Collecting through the escaped form of any bytes adds these bytes.
pub collect-escape :
    (e : ReadError) (xs raw more : Bytes)
    → collect e raw (escape xs ++ more) ≡ collect e (raw ++ xs) more
unfolding escape
collect-escape e [] raw more = ap (λ t. collect e t more) (sym (append-nil raw))
collect-escape e (b ∷ xs) raw more =
    let collected : (c : ℕ)
        → collect e (raw ++ c ∷ []) (escape xs ++ more) ≡ collect e (raw ++ c ∷ xs) more =
      λ c.
        collect-escape e xs (raw ++ c ∷ []) more
        ∙ ap (λ t. collect e t more) (append_assoc raw (c ∷ []) xs) in
    elim (ℕ_discrete b 0x7e) [
      | yes p ↦ rw p (collect_02 e raw _ ∙ collected 0x7e)
      | no p ↦ elim (ℕ_discrete b 0x7d) [
        | yes p' ↦ rw p' (collect_01 e raw _ ∙ collected 0x7d)
        | no p' ↦ rw (==_ne b 0x7e p, ==_ne b 0x7d p') (collect_plain e raw b _ p p' ∙ collected b)
      ]
    ]

-- No byte of the escaped form is a flag.
pub escape_no_flag : (xs : Bytes) → All (λ b. b ≢ flag_byte) (escape xs)
unfolding escape
escape_no_flag [] = tt
escape_no_flag (b ∷ xs) = elim (ℕ_discrete b 0x7e) [
  | yes p ↦ rw p (omega arith, (omega arith, escape_no_flag xs))
  | no p ↦ elim (ℕ_discrete b 0x7d) [
    | yes p' ↦ rw p' (omega arith, (omega arith, escape_no_flag xs))
    | no p' ↦ rw (==_ne b 0x7e p, ==_ne b 0x7d p') (p, escape_no_flag xs)
  ]
]

-- Bytes before the opening flag are dropped.
pub skip_to_flag_lem :
    (e : ReadError) (junk rest : Bytes)
    → All (λ b. b ≢ flag_byte) junk
    → skip_to_flag e (junk ++ flag_byte ∷ rest) ≡ ok rest
unfolding skip_to_flag
skip_to_flag_lem e [] rest h = refl
skip_to_flag_lem e (b ∷ junk) rest h = ground (arith, skip_to_flag_lem e junk rest h.1)
