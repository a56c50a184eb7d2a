-- ===== src/Deployment/Spec/Laws.antt =====
-- What a deployment request looks like that passes validation.
use cloudrail.Common.{
  ◌≡◌, refl, ◌≤◌, true, false, [], ◌∷◌, ◌++◌, arith, ◌==◌, ==_iff, length, all, Bool-cases, inl,
  inr, ap, ap₂, and_left, and_right, ℕ, ◌||◌,
}
use cloudrail.Common.Int.{Between, Between-of_tests}
use cloudrail.Common.Text.{Text, bytes, has_prefix, has_prefix_sound, is_lower, is_digit}
use cloudrail.Result.{ok}
use cloudrail.Deployment.Model.{Spec}
use cloudrail.Deployment.Spec.{
  is_hex, image_byte, match_digest, match_repository, match_image, valid_health_path, validate,
}

-- The image is pinned: a repository, `@sha256:` and 64 lower-case hexadecimal digits.
pub record IsPinned (image : Text) : Type 0 where
  pub repository : Text
  pub digits : Text
  pub image_eq : image ≡ repository ++ (bytes "@sha256:" ++ digits)
  pub repository_bytes : all image_byte repository ≡ true
  pub digits_hex : all is_hex digits ≡ true
  pub digits_length : length digits ≡ 64

digest_lem :
    (s : Text)
    → match_digest s ≡ true
    → (d : Text) × (s ≡ bytes "sha256:" ++ d) × (all is_hex d ≡ true) × (length d ≡ 64)
unfolding match_digest
digest_lem s h =
    let (t, e) = has_prefix_sound s (bytes "sha256:") (ground arith) in
    (t, e, ground (arith, e), ground (arith, e))

IsPinned-at :
    (c : ℕ) (s d : Text)
    → c ≡ b'@'
    → s ≡ bytes "sha256:" ++ d
    → all is_hex d ≡ true
    → length d ≡ 64
    → IsPinned (c ∷ s)
IsPinned-at c s d at e hex len = record {
  repository = [];
  digits = d;
  image_eq = ap₂ ◌∷◌ at e;
  repository_bytes = refl;
  digits_hex = hex;
  digits_length = len;
}

IsPinned-after : (c : ℕ) (s : Text) → image_byte c ≡ true → IsPinned s → IsPinned (c ∷ s)
IsPinned-after c s byte p = record {
  repository = c ∷ p.repository;
  digits = p.digits;
  image_eq = ap (λ t. c ∷ t) p.image_eq;
  repository_bytes = ground (arith, p.repository_bytes);
  digits_hex = p.digits_hex;
  digits_length = p.digits_length;
}

repository_lem : (s : Text) → match_repository s ≡ true → IsPinned s
unfolding match_repository
repository_lem [] h = absurd (cc)
repository_lem (c ∷ s) h = elim (Bool-cases (c == b'@')) [
  | inl at ↦
      let (d, e, hex, len) = digest_lem s (rw at at h) in
      IsPinned-at c s d ((==_iff c b'@').0 at) e hex len
  | inr go ↦
      IsPinned-after c s (and_left _ _ (rw go at h)) (repository_lem s (and_right _ _ (rw go at h)))
]

first_byte : (c : ℕ) → (is_lower c || is_digit c) ≡ true → image_byte c ≡ true
unfolding image_byte
first_byte c h = ground arith

match_image-IsPinned : (s : Text) → match_image s ≡ true → IsPinned s
unfolding match_image
match_image-IsPinned [] h = absurd (cc)
match_image-IsPinned (c ∷ s) h =
    IsPinned-after c s (first_byte c (and_left _ _ h)) (repository_lem s (and_right _ _ h))

pub record IsValidSpec (s : Spec) : Type 0 where
  pub pinned : IsPinned s.image
  pub image_length : length s.image ≤ 512
  pub port_range : Between 1 65535 s.port
  pub path_length : length s.health_path ≤ 200
  pub absolute : has_prefix s.health_path (bytes "/") ≡ true
  pub one_slash : has_prefix s.health_path (bytes "//") ≡ false

-- A request that passes validation names an image pinned by digest, a port from 1 to 65535, and a
-- readiness path of at most 200 bytes that begins with exactly one slash.
pub validate-IsValidSpec : (s : Spec) → validate s ≡ ok tt → IsValidSpec s
unfolding validate valid_health_path
validate-IsValidSpec s h = record {
  pinned = match_image-IsPinned s.image (ground arith);
  image_length = ground arith;
  port_range = Between-of_tests 1 65535 s.port (ground arith);
  path_length = ground arith;
  absolute = ground arith;
  one_slash = ground arith;
}
