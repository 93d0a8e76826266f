-- ===== src/Registry/Map.antt =====
-- The `map[string]*Session` as the list of its entries, one for each key.
use server_jt.Base.{ℕ, ◌≡◌, refl, Option, none, some, List, [], ◌∷◌, arith, if◌then◌else◌}
use server_jt.Base.Text.{same}
use server_jt.Protocol.Types.{Bytes}
use server_jt.Registry.Keys.{same_iff}

abbrev pub Local : Type 0
Local = List (Bytes × ℕ)

unfoldable pub get : Bytes → Local → Option ℕ
get phone ((other, sid) ∷ entries) = if same other phone then some sid else get phone entries
get phone [] = none

unfoldable pub insert : Bytes → ℕ → Local → Local
insert phone sid ((other, old) ∷ entries) =
    let kept = insert phone sid entries in
    if same other phone then (phone, sid) ∷ entries else (other, old) ∷ kept
insert phone sid [] = (phone, sid) ∷ []

unfoldable pub delete : Bytes → Local → Local
delete phone ((other, old) ∷ entries) =
    let kept = delete phone entries in if same other phone then kept else (other, old) ∷ kept
delete phone [] = []

pub get-insert :
    (p q : Bytes) (sid : ℕ) (entries : Local)
    → get q (insert p sid entries) ≡ (if same p q then some sid else get q entries)
unfolding get insert
get-insert p q sid ((other, old) ∷ entries) =
    ground (arith, get-insert p q sid entries, same_iff other q, same_iff other p, same_iff p q)
get-insert p q sid [] = refl

pub get-delete :
    (k j : Bytes) (m : Local) → get j (delete k m) ≡ (if same k j then none else get j m)
unfolding get delete
get-delete k j [] = ground arith
get-delete k j ((i, w) ∷ m) =
    ground (arith, same_iff k j, same_iff i k, same_iff i j, get-delete k j m)
