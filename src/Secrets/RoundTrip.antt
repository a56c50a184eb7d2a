-- ===== src/Secrets/RoundTrip.antt =====
-- What was sealed for a scope opens under that scope.
use cloudrail.Common.{
  ◌≡◌, refl, ap, [], ◌∷◌, ◌++◌, arith, some, length, length-append, take, drop, ltb, false,
}
use cloudrail.Common.Text.{Text}
use cloudrail.Result.{ok}
use cloudrail.Secrets.{Aead, seal, open_sealed}

take-append : (s t : Text) → take (length s) (s ++ t) ≡ s
take-append [] t = refl
take-append (c ∷ s) t = ap (λ r. c ∷ r) (take-append s t)

drop-append : (s t : Text) → drop (length s) (s ++ t) ≡ t
drop-append [] t = refl
drop-append (c ∷ s) t = drop-append s t

not_short : (s t : Text) → ltb (length (s ++ t)) (length s) ≡ false
not_short s t = ground (arith, length-append {0} s t)

-- With a nonce of the cipher's size, and a cipher that decrypts what it encrypted, opening what was
-- sealed under the same scope returns the value.
pub open-seal :
    (c : Aead) (nonce value scope : Text)
    → length nonce ≡ c.nonce_size
    → ((n v s : Text) → c.decrypt n (c.encrypt n v s) s ≡ some v)
    → open_sealed c (seal c nonce value scope) scope ≡ ok value
unfolding open_sealed seal
open-seal c nonce value scope size inverse = rw (← size) (
    rw (not_short nonce (c.encrypt nonce value scope)) (
      rw (take-append nonce (c.encrypt nonce value scope))
        (rw (drop-append nonce (c.encrypt nonce value scope)) (rw (inverse nonce value scope)))))
