-- ===== src/Merkle/Height.antt =====
-- How many levels a tree has: `int(math.Ceil(math.Log2(float64(n))))` of merkle.go, on integers.
use native.Mathlib.Nat.{pow-suc}
use aic_verifier.Prelude.{
  ℕ, zero, suc, ◌+◌, ◌/◌, ◌^◌, ◌≤◌, ◌≡◌, refl, Bool-cases, inl, inr, List, [], ◌∷◌, length, ltb,
  arith, if◌then◌else◌,
}
use aic_verifier.Merkle.{Bytes, Sha256, next_level, upper_levels}

-- On fuel, which `ceil_log2` gives as `n`.
pub halvings : ℕ → ℕ → ℕ
halvings zero n = 0
halvings (suc fuel) n = let rest = suc (halvings fuel ((n + 1) / 2)) in if ltb 1 n then rest else 0

-- the least k with n ≤ 2 ^ k; a float's logarithm agrees up to 2 ^ 48
unfoldable pub ceil_log2 : ℕ → ℕ
unfolding halvings
ceil_log2 n = halvings n n

pub halvings_enough : (f g n : ℕ) → n ≤ suc f → n ≤ suc g → halvings f n ≡ halvings g n
unfolding halvings
halvings_enough zero zero n h k = refl
halvings_enough zero (suc g) n h k = ground arith
halvings_enough (suc f) zero n h k = ground arith
halvings_enough (suc f) (suc g) n h k = ground (arith, halvings_enough f g ((n + 1) / 2))

pub length-next_level :
    (sha : Sha256) (hs : List Bytes) → length (next_level sha hs) ≡ (length hs + 1) / 2
unfolding next_level
length-next_level sha [] = refl
length-next_level sha (a ∷ []) = refl
length-next_level sha (a ∷ b ∷ rest) = omega (arith, length-next_level sha rest)

-- The loop over the levels makes as many rounds as the bound allows.
pub length-upper_levels :
    (sha : Sha256) (f : ℕ) (hs : List Bytes)
    → length (upper_levels sha f hs) ≡ halvings f (length hs)
unfolding upper_levels halvings
length-upper_levels sha zero hs = refl
length-upper_levels sha (suc f) hs =
    ground (arith, length-upper_levels sha f (next_level sha hs), length-next_level sha hs)

halvings_bound : (f n k : ℕ) → n ≤ suc f → n ≤ 2 ^ k → halvings f n ≤ k
unfolding halvings
halvings_bound zero n k h b = omega arith
halvings_bound (suc f) n zero h b = ground arith
halvings_bound (suc f) n (suc k) h b = ground (arith, halvings_bound f ((n + 1) / 2) k)

le_two_pow-halvings : (f n : ℕ) → n ≤ suc f → n ≤ 2 ^ halvings f n
unfolding halvings
le_two_pow-halvings zero n h = ground arith
le_two_pow-halvings (suc f) n h = elim (Bool-cases (ltb 1 n)) [
  | inl more ↦ rw more (
      omega (
        arith,
        pow-suc 2 (halvings f ((n + 1) / 2)),
        le_two_pow-halvings f ((n + 1) / 2) (ground arith),
      ))
  | inr done ↦ rw done (ground arith)
]

-- `ceil_log2` is the least exponent whose power of two reaches `n`.
pub ceil_log2-le : (n k : ℕ) → n ≤ 2 ^ k → ceil_log2 n ≤ k
unfolding ceil_log2
ceil_log2-le n k b = halvings_bound n n k (omega arith) b

pub le_two_pow-ceil_log2 : (n : ℕ) → n ≤ 2 ^ ceil_log2 n
unfolding ceil_log2
le_two_pow-ceil_log2 n = le_two_pow-halvings n n (omega arith)
