-- ===== src/Protocol/Frame/Errors.antt =====
-- The error returns of `ReadFrame`, and what a successful call takes from the stream.
use server_jt.Base.{
  ℕ, ◌+◌, ◌≤◌, ◌≡◌, ◌≢◌, ◌↔◌, refl, [], ◌∷◌, ◌++◌, arith, length, length-append, All, ==_ne,
}
use server_jt.Protocol.Types.{Bytes}
use server_jt.Protocol.Frame.{
  Frame, ReadError, Result, ok, err, ◌>>=◌, closed, mid_frame, escape_cut, invalid_escape,
  flag_byte, read_frame, skip_to_flag, collect, decode_raw, deliver, escape, >>=-eq-ok,
}
use server_jt.Protocol.Frame.Escape.{collect-escape, skip_to_flag_lem}

module _ (e : ReadError) where
  skip_to_flag-takes : (bs rest : Bytes) → skip_to_flag e bs ≡ ok rest → length rest + 1 ≤ length bs
  unfolding skip_to_flag
  skip_to_flag-takes [] rest h = cc
  skip_to_flag-takes (b ∷ bs) rest h = ground (arith, skip_to_flag-takes bs rest)

  -- Each collected byte takes a byte at least, and the closing flag one more.
  collect-takes :
      (bs raw raw' rest : Bytes)
      → collect e raw bs ≡ ok (raw', rest)
      → length raw' + length rest + 1 ≤ length raw + length bs
  unfolding collect
  collect-takes [] raw raw' rest h = cc
  collect-takes (b ∷ []) raw raw' rest h =
      ground (arith, collect-takes [] (raw ++ b ∷ []) raw' rest)
  collect-takes (b ∷ c ∷ bs) raw raw' rest h = ground (
    arith,
    length-append raw (b ∷ []),
    length-append raw (0x7d ∷ []),
    length-append raw (0x7e ∷ []),
    collect-takes bs (raw ++ 0x7d ∷ []) raw' rest,
    collect-takes bs (raw ++ 0x7e ∷ []) raw' rest,
    collect-takes (c ∷ bs) (raw ++ b ∷ []) raw' rest,
  )

  decode_raw-long : (raw : Bytes) (f : Frame) → decode_raw raw ≡ ok f → 13 ≤ length raw
  unfolding decode_raw
  decode_raw-long raw f h = ground arith

  deliver-takes :
      (p : Bytes × Bytes) (f : Frame) (rest : Bytes)
      → deliver p ≡ ok (f, rest)
      → length rest + 13 ≤ length p.0 + length p.1
  unfolding deliver
  deliver-takes (raw, after) f rest h =
      let (g, h3, k3) = >>=-eq-ok (decode_raw raw) _ h in ground (arith, decode_raw-long raw g h3)

  collected-takes :
      (opened : Bytes) (f : Frame) (rest : Bytes)
      → ((p : Bytes × Bytes) × (collect e [] opened ≡ ok p) × (deliver p ≡ ok (f, rest)))
      → length rest + 14 ≤ length opened
  collected-takes opened f rest ((raw, after), h, k) =
      omega (arith, collect-takes opened [] raw after h, deliver-takes (raw, after) f rest k)

  opened-takes :
      (stream : Bytes) (f : Frame) (rest : Bytes)
      → ((opened : Bytes) × (skip_to_flag e stream ≡ ok opened)
          × ((collect e [] opened >>= deliver) ≡ ok (f, rest)))
      → length rest + 15 ≤ length stream
  opened-takes stream f rest (opened, h, k) = omega (
    arith,
    skip_to_flag-takes stream opened h,
    collected-takes opened f rest (>>=-eq-ok (collect e [] opened) deliver k),
  )

  -- A frame that `ReadFrame` returns took at least 15 bytes of the stream: two flags, twelve bytes
  -- of header and the checksum.
  pub read_frame-takes :
      (stream : Bytes) (f : Frame) (rest : Bytes)
      → read_frame e stream ≡ ok (f, rest)
      → length rest + 15 ≤ length stream
  unfolding read_frame
  read_frame-takes stream f rest h =
      opened-takes stream f rest (>>=-eq-ok (skip_to_flag e stream) _ h)

  -- Streams with no flag at all are the ones on which it returns the bare read error.
  skip_to_flag-none :
      (bs : Bytes) → skip_to_flag e bs ≡ err (closed e) → All (λ b. b ≢ flag_byte) bs
  unfolding skip_to_flag
  skip_to_flag-none [] h = tt
  skip_to_flag-none (b ∷ bs) h = ground (arith, skip_to_flag-none bs)

  skip_to_flag-closed :
      (bs : Bytes) → All (λ b. b ≢ flag_byte) bs → skip_to_flag e bs ≡ err (closed e)
  unfolding skip_to_flag
  skip_to_flag-closed [] h = refl
  skip_to_flag-closed (b ∷ bs) h = ground (arith, skip_to_flag-closed bs h.1)

  collect-ne-closed : (bs raw : Bytes) (e' : ReadError) → collect e raw bs ≢ err (closed e')
  unfolding collect
  collect-ne-closed [] raw e' h = cc
  collect-ne-closed (b ∷ []) raw e' h = ground (arith, collect-ne-closed [] (raw ++ b ∷ []) e')
  collect-ne-closed (b ∷ c ∷ bs) raw e' h = ground (
    arith,
    collect-ne-closed bs (raw ++ 0x7d ∷ []) e',
    collect-ne-closed bs (raw ++ 0x7e ∷ []) e',
    collect-ne-closed (c ∷ bs) (raw ++ b ∷ []) e',
  )

  decode_raw-ne-closed : (raw : Bytes) (e' : ReadError) → decode_raw raw ≢ err (closed e')
  unfolding decode_raw
  decode_raw-ne-closed raw e' h = ground arith

  deliver-ne-closed : (p : Bytes × Bytes) (e' : ReadError) → deliver p ≢ err (closed e')
  unfolding deliver
  deliver-ne-closed (raw, rest) e' h = ground (arith, decode_raw-ne-closed raw e')

  collected-ne-closed :
      (r : Result (Bytes × Bytes)) (e' : ReadError)
      → r ≢ err (closed e')
      → (r >>= deliver) ≢ err (closed e')
  collected-ne-closed (ok p) e' h = deliver-ne-closed p e'
  collected-ne-closed (err x) e' h = λ k. h (cc)

  only_skip :
      (r : Result Bytes)
      → (r >>= λ opened. collect e [] opened >>= deliver) ≡ err (closed e)
      → r ≡ err (closed e)
  only_skip (ok opened) h =
      absurd (collected-ne-closed (collect e [] opened) e (collect-ne-closed opened [] e) h)
  only_skip (err x) h = cc

  -- `ReadFrame` passes the bare read error on exactly when the stream holds no flag; it never
  -- returns it once an opening flag was read.
  pub read_frame-closed_iff :
      (stream : Bytes) → (read_frame e stream ≡ err (closed e)) ↔ All (λ b. b ≢ flag_byte) stream
  unfolding read_frame
  read_frame-closed_iff stream = (
    λ h. skip_to_flag-none stream (only_skip (skip_to_flag e stream) h),
    λ h. rw (skip_to_flag-closed stream h),
  )

module _ (e : ReadError) (junk xs : Bytes) (hj : All (λ b. b ≢ flag_byte) junk) where
  reach :
      (more : Bytes)
      → read_frame e (junk ++ flag_byte ∷ (escape xs ++ more)) ≡ (collect e xs more >>= deliver)
  unfolding read_frame
  reach more = rw (skip_to_flag_lem e junk (escape xs ++ more) hj, collect-escape e xs [] more)

  -- A stream that ends inside a frame or behind a lone escape byte, and one with an escape sequence
  -- that the protocol does not know: each has its own error, whatever was collected before.
  pub read_frame_cut :
      (c : ℕ) (rest : Bytes)
      → c ≢ 0x01
      → c ≢ 0x02
      → (read_frame e (junk ++ flag_byte ∷ (escape xs ++ [])) ≡ err (mid_frame e))
        × (read_frame e (junk ++ flag_byte ∷ (escape xs ++ 0x7d ∷ [])) ≡ err (escape_cut e))
        × (read_frame e (junk ++ flag_byte ∷ (escape xs ++ 0x7d ∷ c ∷ rest))
            ≡ err (invalid_escape c))
  unfolding collect
  read_frame_cut c rest h1 h2 = (
    rw (reach []),
    rw (reach (0x7d ∷ [])),
    rw (reach (0x7d ∷ c ∷ rest), ==_ne c 0x01 h1, ==_ne c 0x02 h2),
  )
