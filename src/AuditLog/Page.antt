-- ===== src/AuditLog/Page.antt =====
-- audit.go: the count of entries against `filter.Limit`, which the two readers share.
use aic_verifier.Prelude.{
  ℕ, zero, suc, ◌+◌, ◌-◌, ◌≡◌, refl, ap, true, false, List, [], ◌∷◌, take, drop, ltb, arith,
  if◌then◌else◌, Bool-cases, inl, inr,
}
use aic_verifier.AuditLog.{limit_reached, page}

take-nil {ℓ} : {A : Type ℓ} (n : ℕ) → take {A = A} n [] ≡ []
take-nil zero = refl
take-nil (suc n) = refl

pub drop-nil {ℓ} : {A : Type ℓ} (n : ℕ) → drop {A = A} n [] ≡ []
drop-nil zero = refl
drop-nil (suc n) = refl

module _ {ℓ} {A : Type ℓ} (limit : ℕ) where
  abbrev pub remaining : ℕ → List A → List A
  remaining found es = if ltb 0 limit then take (limit - found) es else es

  pub remaining-nil : (found : ℕ) → remaining found [] ≡ []
  remaining-nil found = elim (Bool-cases (ltb 0 limit)) [
    | inl limited ↦ rw limited (take-nil (limit - found))
    | inr free ↦ rw free refl
  ]

  pub remaining-last :
      (found : ℕ) (e : A) (es : List A)
      → limit_reached limit found ≡ false
      → limit_reached limit (found + 1) ≡ true
      → remaining found (e ∷ es) ≡ e ∷ []
  remaining-last found e es before after =
      let limited : ltb 0 limit ≡ true = ground (arith, after) in
      let one : limit - found ≡ 1 = ground (arith, before, after) in rw limited (rw one refl)

  pub remaining-more :
      (found : ℕ) (e : A) (es : List A)
      → limit_reached limit (found + 1) ≡ false
      → remaining found (e ∷ es) ≡ e ∷ remaining (found + 1) es
  remaining-more found e es after = elim (Bool-cases (ltb 0 limit)) [
    | inl limited ↦
        let more : limit - found ≡ suc (limit - (found + 1)) = ground (arith, limited, after) in
        rw limited (rw more refl)
    | inr free ↦ rw free refl
  ]

  pub remaining-page : (skip : ℕ) (xs : List A) → remaining 0 (drop skip xs) ≡ page limit skip xs
  remaining-page skip xs =
      let whole : limit - 0 ≡ limit = omega arith in
      ap (λ n. if ltb 0 limit then take n (drop skip xs) else drop skip xs) whole
