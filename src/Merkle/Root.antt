-- ===== src/Merkle/Root.antt =====
-- merkle.go: the texts that `NewMerkleTree` hashes, and the roots of batches.
use mathlib.Core.List.Memᴰ
use mathlib.Core.Path.{subst}
use aic_verifier.Prelude.{
  ℕ, zero, suc, ◌+◌, ◌/◌, ◌≤◌, ◌≡◌, ◌⊎◌, inl, inr, refl, sym, ap, ◌∙◌, true, false, List, [], ◌∷◌,
  ◌++◌, map, length, arith, ltb, Bool-cases, length-map, if◌then◌else◌,
}
use aic_verifier.Merkle.{
  Bytes, Sha256, hash_leaf, hash_node, next_level, upper_levels, top_hash, first_hash,
  new_merkle_tree,
}
use aic_verifier.Merkle.Height.{length-next_level}
use aic_verifier.Merkle.Completeness.{length-hash_leaf, root-tree_of, length-hash_node}
use aic_verifier.Merkle.Binding.{
  Collision, Collision-wider, Collision-heads, Collision-tails, node_binding_left, leaf_binding,
}

abbrev AllDigests : List Bytes → Type 0
AllDigests [] = Unit
AllDigests (h ∷ hs) = (length h ≡ 32) × AllDigests hs

-- what one round over a level hashes
unfoldable pub level_texts : List Bytes → List Bytes
level_texts [] = []
level_texts (a ∷ []) = []
level_texts (a ∷ b ∷ rest) = ((1 ∷ a) ++ b) ∷ level_texts rest

module _ (sha : Sha256) where
  unfoldable pub tower_texts : ℕ → List Bytes → List Bytes
  tower_texts zero hs = []
  tower_texts (suc fuel) hs =
      let rest = tower_texts fuel (next_level sha hs) in
      if ltb 1 (length hs) then level_texts hs ++ rest else []

  -- what `NewMerkleTree` hashes
  unfoldable pub batch_texts : List Bytes → List Bytes
  batch_texts leaves =
      map (λ (l : Bytes). 0 ∷ l) leaves
      ++ tower_texts (length (map (hash_leaf sha) leaves)) (map (hash_leaf sha) leaves)

  Collision-left :
      (xs ys us vs : List Bytes) → Collision sha xs ys → Collision sha (xs ++ us) (ys ++ vs)
  Collision-left xs ys us vs c =
      Collision-wider sha xs ys (xs ++ us) (ys ++ vs) c (λ x. Memᴰ.append_left us)
        (λ y. Memᴰ.append_left vs)

  Collision-right :
      (xs ys us vs : List Bytes) → Collision sha us vs → Collision sha (xs ++ us) (ys ++ vs)
  Collision-right xs ys us vs c =
      Collision-wider sha us vs (xs ++ us) (ys ++ vs) c (λ x. Memᴰ.append_right xs)
        (λ y. Memᴰ.append_right ys)

  next_level-AllDigests : (hs : List Bytes) → AllDigests hs → AllDigests (next_level sha hs)
  unfolding next_level
  next_level-AllDigests [] d = d
  next_level-AllDigests (a ∷ []) d = d
  next_level-AllDigests (a ∷ b ∷ rest) d =
      (length-hash_node sha a b, next_level-AllDigests rest d.1.1)

  map-AllDigests : (leaves : List Bytes) → AllDigests (map (hash_leaf sha) leaves)
  map-AllDigests [] = tt
  map-AllDigests (l ∷ ls) = (length-hash_leaf sha l, map-AllDigests ls)

  next_level_binding :
      (hs gs : List Bytes)
      → length hs ≡ length gs
      → AllDigests hs
      → AllDigests gs
      → next_level sha hs ≡ next_level sha gs
      → (hs ≡ gs) ⊎ Collision sha (level_texts hs) (level_texts gs)
  unfolding next_level level_texts
  next_level_binding [] [] l d d' e = inl refl
  next_level_binding [] (g ∷ gs) l d d' e = absurd (omega arith)
  next_level_binding (a ∷ []) [] l d d' e = absurd (omega arith)
  next_level_binding (a ∷ []) (c ∷ []) l d d' e = inl e
  next_level_binding (a ∷ []) (c ∷ f ∷ gs) l d d' e = absurd (omega arith)
  next_level_binding (a ∷ b ∷ rest) [] l d d' e = absurd (omega arith)
  next_level_binding (a ∷ b ∷ rest) (c ∷ []) l d d' e = absurd (omega arith)
  next_level_binding (a ∷ b ∷ rest) (c ∷ f ∷ gs) l d d' e =
      let heads : hash_node sha a b ≡ hash_node sha c f = ground arith in
      let tails : next_level sha rest ≡ next_level sha gs = ground arith in
      elim (node_binding_left sha a b c f (d.0 ∙ sym d'.0) heads) [
        | inr x ↦ inr (
            Collision-heads sha ((1 ∷ a) ++ b) ((1 ∷ c) ++ f) (level_texts rest) (level_texts gs) x)
        | inl ab ↦ elim (next_level_binding rest gs (omega arith) d.1.1 d'.1.1 tails) [
          | inr x ↦ inr (
              Collision-tails sha ((1 ∷ a) ++ b) ((1 ∷ c) ++ f) (level_texts rest) (level_texts gs)
                x)
          | inl rs ↦ inl (cc (ab.0, ab.1, rs))
        ]
      ]

  single_binding :
      (hs gs : List Bytes)
      → length hs ≡ length gs
      → length hs ≤ 1
      → first_hash hs ≡ first_hash gs
      → hs ≡ gs
  single_binding [] [] l s e = refl
  single_binding [] (g ∷ gs) l s e = absurd (omega arith)
  single_binding (h ∷ []) [] l s e = absurd (omega arith)
  single_binding (h ∷ []) (g ∷ []) l s e = ground arith
  single_binding (h ∷ []) (g ∷ f ∷ gs) l s e = absurd (omega arith)
  single_binding (h ∷ k ∷ hs) gs l s e = absurd (omega arith)

  top_binding :
      (f : ℕ) (hs gs : List Bytes)
      → length hs ≡ length gs
      → length hs ≤ suc f
      → AllDigests hs
      → AllDigests gs
      → top_hash hs (upper_levels sha f hs) ≡ top_hash gs (upper_levels sha f gs)
      → (hs ≡ gs) ⊎ Collision sha (tower_texts f hs) (tower_texts f gs)
  unfolding top_hash upper_levels tower_texts
  top_binding zero hs gs l s d d' e = inl (single_binding hs gs l (omega arith) e)
  top_binding (suc f) hs gs l s d d' e = elim (Bool-cases (ltb 1 (length hs))) [
    | inl more ↦
        let more' : ltb 1 (length gs) ≡ true = rw (← l) more in
        let upper : top_hash (next_level sha hs) (upper_levels sha f (next_level sha hs))
            ≡ top_hash (next_level sha gs) (upper_levels sha f (next_level sha gs)) =
          rw (more, more') at e in
        elim (top_binding f (next_level sha hs) (next_level sha gs)
          (length-next_level sha hs ∙ ap (λ n. (n + 1) / 2) l ∙ sym (length-next_level sha gs))
          (ground (arith, length-next_level sha hs)) (next_level-AllDigests hs d)
          (next_level-AllDigests gs d') upper) [
            | inr c ↦ inr (
                rw (more, more')
                  (Collision-right (level_texts hs) (level_texts gs)
                    (tower_texts f (next_level sha hs)) (tower_texts f (next_level sha gs)) c))
            | inl same ↦ elim (next_level_binding hs gs l d d' same) [
              | inl e2 ↦ inl e2
              | inr c ↦ inr (
                  rw (more, more')
                    (Collision-left (level_texts hs) (level_texts gs)
                      (tower_texts f (next_level sha hs)) (tower_texts f (next_level sha gs)) c))
            ]
          ]
    | inr last ↦
        let last' : ltb 1 (length gs) ≡ false = rw (← l) last in
        inl (single_binding hs gs l (ground arith) (rw (last, last') at e))
  ]

  map_binding :
      (xs ys : List Bytes)
      → map (hash_leaf sha) xs ≡ map (hash_leaf sha) ys
      → (xs ≡ ys) ⊎ Collision sha (map (λ (l : Bytes). 0 ∷ l) xs) (map (λ (l : Bytes). 0 ∷ l) ys)
  map_binding [] [] e = inl refl
  map_binding [] (y ∷ ys) e = absurd (ground arith)
  map_binding (x ∷ xs) [] e = absurd (ground arith)
  map_binding (x ∷ xs) (y ∷ ys) e =
      let heads : hash_leaf sha x ≡ hash_leaf sha y = ground arith in
      let tails : map (hash_leaf sha) xs ≡ map (hash_leaf sha) ys = ground arith in
      elim (leaf_binding sha x y heads) [
        | inr c ↦ inr (
            Collision-heads sha (0 ∷ x) (0 ∷ y) (map (λ (l : Bytes). 0 ∷ l) xs)
              (map (λ (l : Bytes). 0 ∷ l) ys) c)
        | inl p ↦ elim (map_binding xs ys tails) [
          | inr c ↦ inr (
              Collision-tails sha (0 ∷ x) (0 ∷ y) (map (λ (l : Bytes). 0 ∷ l) xs)
                (map (λ (l : Bytes). 0 ∷ l) ys) c)
          | inl q ↦ inl (cc (p, q))
        ]
      ]

  -- The root of a batch binds all its entries and their order: two batches of one size with one root
  -- are the same batch, or a text hashed for the one and a text hashed for the other differ and have one
  -- digest.
  pub root_binding :
      (xs ys : List Bytes)
      → length xs ≡ length ys
      → (new_merkle_tree sha xs).root ≡ (new_merkle_tree sha ys).root
      → (xs ≡ ys) ⊎ Collision sha (batch_texts xs) (batch_texts ys)
  unfolding new_merkle_tree batch_texts
  root_binding [] [] l e = inl refl
  root_binding [] (y ∷ ys) l e = absurd (omega arith)
  root_binding (x ∷ xs) [] l e = absurd (omega arith)
  root_binding (x ∷ xs) (y ∷ ys) l e =
      let hs : List Bytes = map (hash_leaf sha) (x ∷ xs) in
      let gs : List Bytes = map (hash_leaf sha) (y ∷ ys) in
      let lx : List Bytes = map (λ (l : Bytes). 0 ∷ l) (x ∷ xs) in
      let ly : List Bytes = map (λ (l : Bytes). 0 ∷ l) (y ∷ ys) in
      let sizes : length hs ≡ length gs =
        length-map (hash_leaf sha) (x ∷ xs) ∙ l ∙ sym (length-map (hash_leaf sha) (y ∷ ys)) in
      let tops : top_hash hs (upper_levels sha (length hs) hs)
          ≡ top_hash gs (upper_levels sha (length hs) gs) =
        sym (root-tree_of sha (x ∷ xs) hs)
        ∙ e
        ∙ root-tree_of sha (y ∷ ys) gs
        ∙ ap (λ n. top_hash gs (upper_levels sha n gs)) (sym sizes) in
      elim (top_binding (length hs) hs gs sizes (omega arith) (map-AllDigests (x ∷ xs))
        (map-AllDigests (y ∷ ys)) tops) [
          | inr c ↦ inr (
              Collision-right lx ly (tower_texts (length hs) hs) (tower_texts (length gs) gs) (
                subst (λ n. Collision sha (tower_texts (length hs) hs) (tower_texts n gs)) sizes c))
          | inl same ↦ elim (map_binding (x ∷ xs) (y ∷ ys) same) [
            | inl e2 ↦ inl e2
            | inr c ↦
                inr
                  (Collision-left lx ly (tower_texts (length hs) hs) (tower_texts (length gs) gs) c)
          ]
        ]
