-- ===== src/Metrics/New.antt =====
-- When `New` registers its instruments, and when it panics.
use server_jt.Base.{
  ℕ, length, ◌≡◌, refl, Bool, true, false, not, ◌||◌, ◌&&◌, Option, none, some, List, [], ◌∷◌,
  arith, if◌then◌else◌, map,
}
use server_jt.Base.Text.{same}
use server_jt.Protocol.Types.{Bytes}
use server_jt.Registry.Keys.{same_iff, same_refl}
use server_jt.World.{
  Metric, frames_received, auth_successes, auth_violations, heartbeats, location_reports,
  sos_alarms, decode_errors, unknown_messages, connections_total, connections_active,
}
use server_jt.Metrics.{
  Instrument, Kind, instruments, taken, register_all, new, series, counter, gauge, counter_vec,
  histogram,
}

pub any_taken : List Bytes → List Bytes → Bool
any_taken [] reg = false
any_taken (n ∷ ns) reg = taken n reg || any_taken ns reg

distinct : List Bytes → Bool
distinct [] = true
distinct (n ∷ ns) = not (taken n ns) && distinct ns

-- The names in front of others, the last one first.
pub pushed : List Bytes → List Bytes → List Bytes
pushed [] reg = reg
pushed (n ∷ ns) reg = pushed ns (n ∷ reg)

same_swap : (a b : Bytes) → same a b ≡ same b a
same_swap a b = ground (arith, same_iff a b, same_iff b a)

still_free :
    (n : Bytes) (ns reg : List Bytes)
    → taken n ns ≡ false
    → any_taken ns (n ∷ reg) ≡ any_taken ns reg
unfolding any_taken taken
still_free n [] reg h = refl
still_free n (m ∷ ns) reg h = ground (arith, still_free n ns reg, same_swap m n)

register_all_lem :
    (ns reg : List Bytes)
    → distinct ns ≡ true
    → register_all ns reg ≡ (if any_taken ns reg then none else some (pushed ns reg))
unfolding register_all any_taken distinct pushed
register_all_lem [] reg h = refl
register_all_lem (n ∷ ns) reg h = ground (arith, register_all_lem ns (n ∷ reg), still_free n ns reg)

taken-pushed :
    (n : Bytes) (ns reg : List Bytes) → taken n reg ≡ true → taken n (pushed ns reg) ≡ true
unfolding taken pushed
taken-pushed n [] reg h = h
taken-pushed n (m ∷ ns) reg h = taken-pushed n ns (m ∷ reg) (ground (arith, h))

abbrev pub names : List Bytes
names = map (λ (i : Instrument). i.name) instruments

distinct-names : distinct names ≡ true
unfolding instruments distinct taken same
distinct-names = refl

first_taken : (n : Bytes) (ns reg : List Bytes) → any_taken (n ∷ ns) (pushed (n ∷ ns) reg) ≡ true
unfolding any_taken taken pushed
first_taken n ns reg = rw (taken-pushed n ns (n ∷ reg) (ground (arith, same_refl n))) refl

-- `New` registers all instruments unless one of their names is taken, in which case it panics; so
-- it panics whenever it is called again on the registry that it has left.
pub new_lem :
    (reg : List Bytes)
    → (new reg ≡ (if any_taken names reg then none else some (pushed names reg)))
      × (any_taken names (pushed names reg) ≡ true)
unfolding new instruments
new_lem reg = (register_all_lem names reg distinct-names, first_taken _ _ reg)

-- The number of label values that a series of the instrument has.
arity : Kind → ℕ
arity (counter_vec labels) = length labels
arity gauge = 0
arity counter = 0
arity (histogram buckets) = 0

pub declared : Bytes → List Instrument → Option ℕ
declared n [] = none
declared n (x ∷ xs) = if same x.name n then some (arity x.kind) else declared n xs

-- Each metric of the handlers is an instrument that `New` registers, with the labels it declares.
pub series-declared : (m : Metric) → declared (series m).0 instruments ≡ some (length (series m).1)
unfolding declared series instruments same arity
series-declared (frames_received msg_type) = refl
series-declared auth_successes = refl
series-declared auth_violations = refl
series-declared heartbeats = refl
series-declared location_reports = refl
series-declared sos_alarms = refl
series-declared decode_errors = refl
series-declared unknown_messages = refl
series-declared connections_total = refl
series-declared connections_active = refl
