-- ===== src/Mask/Hidden.antt =====
-- mask.go: what a masked token does not show.
use aic_verifier.Prelude.{
  ℕ, zero, suc, ◌+◌, ◌-◌, ◌/◌, ◌≤◌, ◌≡◌, refl, sym, ap, ◌∙◌, ◌⊎◌, inl, inr, [], ◌∷◌, ◌++◌, false,
  length, length-append, take, drop, leb, arith, Bool-cases,
}
use aic_verifier.Merkle.{Bytes}
use aic_verifier.Mask.{repeat, masked, keep_of, mask_token}

take-append : (k : ℕ) (p q q' : Bytes) → k ≤ length p → take k (p ++ q) ≡ take k (p ++ q')
take-append zero p q q' h = refl
take-append (suc k) [] q q' h = absurd (omega (arith, h))
take-append (suc k) (x ∷ p) q q' h = ap (λ l. x ∷ l) (take-append k p q q' (omega (arith, h)))

drop-append : (p q : Bytes) (j : ℕ) → drop (length p + j) (p ++ q) ≡ drop j q
drop-append [] q j = let none_before : 0 + j ≡ j = omega arith in ap (λ n. drop n q) none_before
drop-append (x ∷ p) q j =
    let next : suc (length p) + j ≡ suc (length p + j) = omega arith in
    ap (λ n. drop n (x ∷ p ++ q)) next ∙ drop-append p q j

length_pieces : (p m s : Bytes) → length (p ++ (m ++ s)) ≡ length p + (length m + length s)
length_pieces p m s = omega (arith, length-append p (m ++ s), length-append m s)

-- the last bytes of a text stand in its last piece
drop_last :
    (p m s : Bytes) (l : ℕ)
    → l ≤ length s
    → drop (length (p ++ (m ++ s)) - l) (p ++ (m ++ s)) ≡ drop (length s - l) s
drop_last p m s l h =
    let from : length (p ++ (m ++ s)) - l ≡ length p + (length m + (length s - l)) =
      omega (arith, length_pieces p m s, h) in
    ap (λ n. drop n (p ++ (m ++ s))) from
    ∙ drop-append p (m ++ s) (length m + (length s - l))
    ∙ drop-append m s (length s - l)

masked_hides :
    (k l : ℕ) (p m m' s : Bytes)
    → length m ≡ length m'
    → k ≤ length p
    → l ≤ length s
    → masked k l (p ++ (m ++ s)) ≡ masked k l (p ++ (m' ++ s))
masked_hides k l p m m' s same front back =
    let size : length (p ++ (m ++ s)) ≡ length (p ++ (m' ++ s)) =
      omega (arith, length_pieces p m s, length_pieces p m' s, same) in
    ap
      (λ x.
        x
        ++ repeat (length (p ++ (m ++ s)) - (k + l))
        ++ drop (length (p ++ (m ++ s)) - l) (p ++ (m ++ s)))
      (take-append k p (m ++ s) (m' ++ s) front)
    ∙ ap
        (λ n.
          take k (p ++ (m' ++ s))
          ++ repeat (n - (k + l))
          ++ drop (length (p ++ (m ++ s)) - l) (p ++ (m ++ s)))
        size
    ∙ ap (λ x. take k (p ++ (m' ++ s)) ++ repeat (length (p ++ (m' ++ s)) - (k + l)) ++ x)
        (drop_last p m s l back ∙ sym (drop_last p m' s l back))

keep_of_bound : (n k : ℕ) → leb n 8 ≡ false → (n / 4 ≤ k) ⊎ (4 ≤ k) → keep_of n ≤ k
unfolding keep_of
keep_of_bound n k long (inl quarter) = ground (arith, long, quarter)
keep_of_bound n k long (inr four) = ground (arith, long, four)

-- Two tokens of the same length that differ only between a front and a back, each of at least four bytes or
-- at least a quarter of the token, rounded down, have the same mask.
pub mask_token_hides :
    (front secret secret' back : Bytes)
    → length secret ≡ length secret'
    → (length (front ++ (secret ++ back)) / 4 ≤ length front) ⊎ (4 ≤ length front)
    → (length (front ++ (secret ++ back)) / 4 ≤ length back) ⊎ (4 ≤ length back)
    → mask_token (front ++ (secret ++ back)) ≡ mask_token (front ++ (secret' ++ back))
unfolding mask_token
mask_token_hides front secret secret' back same h k =
    let n = length (front ++ (secret ++ back)) in
    let size : n ≡ length (front ++ (secret' ++ back)) =
      omega (arith, length_pieces front secret back, length_pieces front secret' back, same) in
    elim (Bool-cases (leb n 8)) [
      | inl short ↦
          rw (short, mask_token)
            (rw (sym (ap (λ x. leb x 8) size) ∙ short, mask_token) (ap repeat size))
      | inr long ↦
          rw (long, mask_token)
            (rw (sym (ap (λ x. leb x 8) size) ∙ long, mask_token)
              (masked_hides (keep_of n) (keep_of n) front secret secret' back same
                  (keep_of_bound n (length front) long h) (keep_of_bound n (length back) long k)
                ∙ ap (λ x. masked (keep_of x) (keep_of x) (front ++ (secret' ++ back))) size))
    ]
