-- ===== src/Registry/Entries.antt =====
-- server/internal/session/registry.go: `Get`, `Count` and `ForEachLocal`, and how often a phone
-- stands in the local map.
use server_jt.Base.{
  ℕ, suc, ◌+◌, ◌≤◌, ◌≡◌, ◌↔◌, ◌&&◌, Option, none, some, [], ◌∷◌, arith, Bool-cases, inl, inr, ◌==◌,
  if◌then◌else◌, length, map, foldl,
}
use server_jt.Base.Text.{same}
use server_jt.Protocol.Types.{Bytes}
use server_jt.World.{World, go}
use server_jt.Registry.Keys.{same_iff}
use server_jt.Registry.Map.{Local, get, insert, delete}
use server_jt.Registry.{register, unregister, evict, delete_if_own}

unfoldable pub get_session : Bytes → World → Option ℕ
get_session phone w = get phone w.local

unfoldable pub count : World → ℕ
count w = length w.local

-- The sessions are copied under the lock, and the function is called behind it.
pub for_each_local : (ℕ → World → World) → World → World
for_each_local fn w = foldl (λ v sid. fn sid v) w (map (λ (x : Bytes × ℕ). x.1) w.local)

unfoldable pub entries_of : Bytes → Local → ℕ
entries_of j [] = 0
entries_of j ((k, sid) ∷ m) = if same k j then suc (entries_of j m) else entries_of j m

-- The map has one entry at most for each phone.
abbrev pub Once : Local → Type 0
Once m = (j : Bytes) → entries_of j m ≤ 1

pub entries_of-get : (j : Bytes) (m : Local) → (get j m ≡ none) ↔ (entries_of j m ≡ 0)
unfolding get entries_of
entries_of-get j [] = ground arith
entries_of-get j ((k, sid) ∷ m) = ground (arith, entries_of-get j m)

entries_of-insert :
    (p j : Bytes) (sid : ℕ) (m : Local)
    → entries_of j (insert p sid m)
      ≡ (if same p j && (entries_of p m == 0) then 1 + entries_of j m else entries_of j m)
unfolding entries_of insert
entries_of-insert p j sid [] = ground arith
entries_of-insert p j sid ((k, old) ∷ m) =
    ground (arith, entries_of-insert p j sid m, same_iff k p, same_iff k j, same_iff p j)

entries_of-delete :
    (p j : Bytes) (m : Local) → entries_of j (delete p m) ≡ (if same p j then 0 else entries_of j m)
unfolding entries_of delete
entries_of-delete p j [] = ground arith
entries_of-delete p j ((k, old) ∷ m) =
    ground (arith, entries_of-delete p j m, same_iff k p, same_iff k j, same_iff p j)

pub insert-Once : (p : Bytes) (sid : ℕ) (m : Local) → Once m → Once (insert p sid m)
insert-Once p sid m h j = ground (arith, entries_of-insert p j sid m, h j, h p, same_iff p j)

pub delete-Once : (p : Bytes) (m : Local) → Once m → Once (delete p m)
delete-Once p m h j = ground (arith, entries_of-delete p j m, h j)

evict-Once :
    (sid : ℕ) (p : Bytes) (o : Option ℕ) (w : World) → Once w.local → Once (evict sid p o w).local
unfolding evict
evict-Once sid p none w h = h
evict-Once sid p (some old) w h = elim (Bool-cases (old == sid)) [
  | inl e ↦ rw e h
  | inr e ↦ rw e (delete-Once p w.local h)
]

pub register-Once : (sid : ℕ) (w : World) → Once w.local → Once (register sid w).local
unfolding register go
register-Once sid w h =
    let phone = (w.sessions sid).phone in
    insert-Once phone sid _ (evict-Once sid phone (get phone w.local) w h)

delete_if_own-Once :
    (sid : ℕ) (p : Bytes) (o : Option ℕ) (m : Local) → Once m → Once (delete_if_own sid p o m)
unfolding delete_if_own
delete_if_own-Once sid p none m h = h
delete_if_own-Once sid p (some j) m h = elim (Bool-cases (j == sid)) [
  | inl e ↦ rw e (delete-Once p m h)
  | inr e ↦ rw e h
]

pub unregister-Once : (sid : ℕ) (w : World) → Once w.local → Once (unregister sid w).local
unfolding unregister go
unregister-Once sid w h =
    let phone = (w.sessions sid).phone in
    elim (Bool-cases (same phone [])) [
      | inl e ↦ rw e h
      | inr e ↦ rw e (delete_if_own-Once sid phone (get phone w.local) w.local h)
    ]
