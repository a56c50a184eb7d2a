-- ===== src/Deployment/Variables/Keys.antt =====
-- The keys of variables and references: a service and a name.
use cloudrail.Common.{==_iff, ==_refl, and_left, and_right, ap₂, false, true, ℕ, ◌==◌, ◌∙◌, ◌≡◌}
use cloudrail.Common.Text.{Text, equals, equals_refl, equals_sound}
use cloudrail.Deployment.Variables.{same_key}

pub same_key_sound :
    (a : ℕ) (n : Text) (b : ℕ) (m : Text) → same_key a n b m ≡ true → (a ≡ b) × (n ≡ m)
same_key_sound a n b m h = (
  (==_iff a b).0 (and_left (a == b) (equals n m) h),
  equals_sound n m (and_right (a == b) (equals n m) h),
)

pub same_key_refl : (a : ℕ) (n : Text) → same_key a n a n ≡ true
same_key_refl a n = rw (==_refl a) (equals_refl n)

-- A key that is one of two different ones is not the other.
pub keys_apart :
    (a : ℕ) (n : Text) (b : ℕ) (m : Text) (c : ℕ) (k : Text)
    → same_key b m c k ≡ false
    → same_key a n b m ≡ true
    → same_key a n c k ≡ false
keys_apart a n b m c k h e =
    let (p, q) = same_key_sound a n b m e in ap₂ (λ i s. same_key i s c k) p q ∙ h
