-- ===== src/Registry/Keys.antt =====
-- Equality of phone numbers as Go compares strings.
use server_jt.Base.{
  ℕ, ◌≡◌, ◌≢◌, ◌↔◌, refl, sym, ap, ◌∙◌, true, false, List, [], ◌∷◌, arith, Bool-cases, inl, inr,
}
use server_jt.Base.Text.{same}

pub same_refl : (a : List ℕ) → same a a ≡ true
unfolding same
same_refl [] = refl
same_refl (x ∷ a) = ground (arith, same_refl a)

pub same→eq : (a b : List ℕ) → same a b ≡ true → a ≡ b
unfolding same
same→eq [] [] h = refl
same→eq [] (y ∷ b) h = cc
same→eq (x ∷ a) [] h = cc
same→eq (x ∷ a) (y ∷ b) h = ground (arith, same→eq a b)

pub same_iff : (a b : List ℕ) → (same a b ≡ true) ↔ (a ≡ b)
same_iff a b = (same→eq a b, λ e. ap (same a) (sym e) ∙ same_refl a)

pub same_ne : (a b : List ℕ) → a ≢ b → same a b ≡ false
same_ne a b h = elim (Bool-cases (same a b)) [ inl e ↦ absurd (h (same→eq a b e)) | inr e ↦ e ]
