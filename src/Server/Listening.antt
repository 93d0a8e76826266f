-- ===== src/Server/Listening.antt =====
-- The accept loop and errors, and the panic of the prune loop.
use server_jt.Base.{
  ℕ, zero, suc, ◌+◌, ◌*◌, ◌≡◌, ◌≢◌, refl, ◌∙◌, true, false, none, List, [], ◌∷◌, ◌++◌, arith,
}
use server_jt.Base.Int.{ℤ, pos, negsuc}
use server_jt.World.{World}
use server_jt.Configuration.{Config}
use server_jt.Server.{accept}
use server_jt.Server.Listen.{
  Accepted, connection, accept_error, accept_loop, Tick, prune_loop, start_ticker,
}

-- No error comes while the context is cancelled.
abbrev pub GoesOn : List Accepted → Type 0
GoesOn [] = Unit {0}
GoesOn (connection sid addr now ∷ xs) = GoesOn xs
GoesOn (accept_error b ∷ xs) = (b ≡ false) × GoesOn xs

-- The connections alone, and the number of errors.
pub accept_all : List Accepted → World → World
accept_all [] w = w
accept_all (connection sid addr now ∷ xs) w = accept_all xs (accept sid addr now w)
accept_all (accept_error b ∷ xs) w = accept_all xs w

pub errors : List Accepted → ℕ
errors [] = 0
errors (connection sid addr now ∷ xs) = errors xs
errors (accept_error b ∷ xs) = suc (errors xs)

-- The accept loop takes every connection, whatever errors come between them, waits 50 ms for each
-- error, and ends at the first error that comes behind the cancellation of the context; what comes
-- after that is not accepted.
pub accept_loop_lem :
    (xs ys : List Accepted) (slept : ℕ) (w : World)
    → GoesOn xs
    → accept_loop (xs ++ accept_error true ∷ ys) slept w
      ≡ record { ended = true; slept = slept + 50 * errors xs; world = accept_all xs w }
unfolding accept_loop accept_all errors
accept_loop_lem [] ys slept w h = ground arith
accept_loop_lem (connection sid addr now ∷ xs) ys slept w h =
    accept_loop_lem xs ys slept (accept sid addr now w) h
accept_loop_lem (accept_error true ∷ xs) ys slept w h = ground arith
accept_loop_lem (accept_error false ∷ xs) ys slept w h =
    accept_loop_lem xs ys (slept + 50) w h.1 ∙ ground arith

-- With a heartbeat timeout that is not positive the goroutine panics, whatever the ticker does.
pub prune_loop_panics :
    (cfg : Config) (ts : List Tick)
    → ((n : ℕ) → cfg.heartbeat_timeout ≢ pos (suc n))
    → prune_loop cfg ts ≡ none
unfolding prune_loop
prune_loop_panics cfg ts h = not_started cfg.heartbeat_timeout ts h
  where
    not_started : (z : ℤ) (us : List Tick) → ((n : ℕ) → z ≢ pos (suc n)) → start_ticker z us ≡ none
    not_started (pos zero) us k = refl
    not_started (pos (suc n)) us k = absurd (k n refl)
    not_started (negsuc n) us k = refl
