-- ===== src/Chain/Sealing.antt =====
-- `SealChecked` of merkle.go: what it accepts and refuses, and sequences of its calls.
use aic_verifier.Prelude.{
  ℕ, suc, ◌+◌, ◌≡◌, ◌≢◌, ◌⊎◌, inl, inr, refl, ap, ◌∙◌, Bool, none, some, List, [], ◌∷◌, ◌++◌,
  length, arith, bytes_equal, bytes_equal_refl, bytes_equal→eq, Option-cases, if◌then◌else◌,
}
use aic_verifier.Merkle.{Bytes, Sha256}
use aic_verifier.Chain.{
  SealedTree, AuditChain, ok, err, ℤ, SealError, missing_previous, continuity_broken, last?,
  is_empty, link_error, verify_continuity, new_audit_chain, seal_checked, sealed_tree, latest_root,
}
use aic_verifier.Chain.Continuity.{Linked, verify_continuity_iff}

link-append :
    (ts : List SealedTree) (new : SealedTree)
    → Linked ts
    → ((latest : SealedTree) → last? ts ≡ some latest → new.previous ≡ latest.root)
    → Linked (ts ++ new ∷ [])
link-append [] new h l = tt
link-append (st ∷ []) new h l = (l st refl, tt)
link-append (st ∷ next ∷ rest) new h l = (h.0, link-append (next ∷ rest) new h.1 l)

link_error-none :
    (ts : List SealedTree) (p : Bytes) (latest : SealedTree)
    → link_error ts p ≡ none
    → last? ts ≡ some latest
    → p ≡ latest.root
unfolding link_error
link_error-none ts p latest h e = bytes_equal→eq p latest.root (ground arith)

link_error-some :
    (ts : List SealedTree) (p : Bytes) (e : SealError)
    → link_error ts p ≡ some e
    → (latest : SealedTree) × (last? ts ≡ some latest) × ((p ≡ []) ⊎ (p ≢ latest.root))
unfolding link_error
link_error-some ts p e h = elim (Option-cases (last? ts)) [
  | inl n ↦ absurd (ground (arith, n))
  | inr (latest, l) ↦ (latest, l, why p latest (ground (arith, l)))
]
  where
    why :
        (q : Bytes) (latest : SealedTree)
        → (if is_empty q
            then some (missing_previous (length ts))
            else if bytes_equal q latest.root
            then none
            else some (continuity_broken q latest.root))
          ≡ some e
        → (q ≡ []) ⊎ (q ≢ latest.root)
    why [] latest k = inl refl
    why (b ∷ q) latest k =
        inr (λ same. ground (arith, ap (bytes_equal (b ∷ q)) same, bytes_equal_refl (b ∷ q)))

link_error-root :
    (root : Bytes) (n : ℕ)
    → root ≢ []
    → (if is_empty root
        then some (missing_previous n)
        else if bytes_equal root root
        then none
        else some (continuity_broken root root))
      ≡ none
link_error-root [] n h = absurd (h refl)
link_error-root (b ∷ root) n h = rw (bytes_equal_refl (b ∷ root))

link_error-latest :
    (c : AuditChain)
    → (c.trees ≡ []) ⊎ (latest_root c ≢ [])
    → link_error c.trees (latest_root c) ≡ none
unfolding link_error latest_root
link_error-latest c (inl e) = rw e
link_error-latest c (inr h) = elim (Option-cases (last? c.trees)) [
  | inl n ↦ rw (n, link_error)
  | inr (st, l) ↦
      let root : latest_root c ≡ st.root = ground (arith, l) in
      rw root (rw (l, link_error) (link_error-root st.root (length c.trees) (λ e. h (root ∙ e))))
]

last?-cons {ℓ} : {A : Type ℓ} (x : A) (xs : List A) → (y : A) × (last? (x ∷ xs) ≡ some y)
last?-cons x [] = (x, refl)
last?-cons x (z ∷ xs) = last?-cons z xs

link_error-dead :
    (ts : List SealedTree) (p : Bytes)
    → ts ≢ []
    → (elim (last? ts) [ none ↦ [] | some st ↦ st.root ]) ≡ []
    → (e : SealError) × (link_error ts p ≡ some e)
unfolding link_error
link_error-dead [] p h d = absurd (h refl)
link_error-dead (t ∷ ts) p h d = go p
  where
    latest : (st : SealedTree) × (last? (t ∷ ts) ≡ some st)
    latest = last?-cons t ts

    go : (q : Bytes) → (e : SealError) × (link_error (t ∷ ts) q ≡ some e)
    go [] = (missing_previous (length (t ∷ ts)), rw (latest.1, link_error))
    go (b ∷ q) =
        let empty : latest.0.root ≡ [] = ground (arith, latest.1) in
        (continuity_broken (b ∷ q) latest.0.root, rw (latest.1, link_error) (rw empty))

-- Batch i carries the number i.
abbrev pub Numbered : ℕ → List SealedTree → Type 0
Numbered i [] = Unit
Numbered i (st ∷ rest) = (st.batch_number ≡ i) × Numbered (suc i) rest

number-append :
    (i : ℕ) (ts : List SealedTree) (new : SealedTree)
    → Numbered i ts
    → new.batch_number ≡ i + length ts
    → Numbered i (ts ++ new ∷ [])
number-append i [] new h e = (omega arith, tt)
number-append i (st ∷ rest) new h e = (h.0, number-append (suc i) rest new h.1 (omega arith))

pub record IsChain (c : AuditChain) : Type 0 where
  pub linked : Linked c.trees
  pub numbered : Numbered 0 c.trees

new_audit_chain-IsChain : (n : ℤ) (b : Bool) → IsChain (new_audit_chain n b)
unfolding new_audit_chain
new_audit_chain-IsChain n b = record { linked = tt; numbered = tt }

-- a request to `SealChecked`: the second of the clock, the entries and the previous root
pub record SealRequest : Type 0 where
  pub now : ℕ
  pub entries : List Bytes
  pub previous_root : Bytes

module _ (sha : Sha256) where
  seal_checked-IsChain :
      (c : AuditChain) (now : ℕ) (entries : List Bytes) (p : Bytes)
      → IsChain c
      → IsChain (seal_checked sha c now entries p).0
  unfolding seal_checked
  seal_checked-IsChain c now entries p h = elim (Option-cases (link_error c.trees p)) [
    | inr (e, refused) ↦ rw (refused, seal_checked) h
    | inl accepted ↦
        rw (accepted, seal_checked)
          (record {
            linked =
                link-append c.trees (sealed_tree sha c now entries p) h.linked
                  (λ latest l. link_error-none c.trees p latest accepted l);
            numbered =
                number-append 0 c.trees (sealed_tree sha c now entries p) h.numbered (omega arith);
          })
  ]

  -- any sequence of calls, those that are refused among them
  unfoldable pub seal_all : AuditChain → List SealRequest → AuditChain
  seal_all c [] = c
  seal_all c (r ∷ rs) = seal_all (seal_checked sha c r.now r.entries r.previous_root).0 rs

  seal_all-IsChain : (c : AuditChain) (rs : List SealRequest) → IsChain c → IsChain (seal_all c rs)
  unfolding seal_all
  seal_all-IsChain c [] h = h
  seal_all-IsChain c (r ∷ rs) h =
      seal_all-IsChain (seal_checked sha c r.now r.entries r.previous_root).0 rs
        (seal_checked-IsChain c r.now r.entries r.previous_root h)

  -- Whatever is asked of `SealChecked`, starting from a new chain, `VerifyContinuity` finds no break,
  -- and batch i carries the number i.
  pub seal_all_continuous :
      (n : ℤ) (b : Bool) (rs : List SealRequest)
      → (verify_continuity (seal_all (new_audit_chain n b) rs) ≡ none)
        × Numbered 0 (seal_all (new_audit_chain n b) rs).trees
  seal_all_continuous n b rs =
      let inv = seal_all-IsChain (new_audit_chain n b) rs (new_audit_chain-IsChain n b) in
      ((verify_continuity_iff (seal_all (new_audit_chain n b) rs)).1 inv.linked, inv.numbered)

  -- A refused call leaves the chain as it was, and happens only on a chain that is not empty, for an
  -- empty previous root or for one that is not the latest root.
  pub seal_checked-refused :
      (c : AuditChain) (now : ℕ) (entries : List Bytes) (p : Bytes) (e : SealError)
      → (seal_checked sha c now entries p).1 ≡ err e
      → ((seal_checked sha c now entries p).0 ≡ c)
        × ((latest : SealedTree) × (last? c.trees ≡ some latest) × ((p ≡ []) ⊎ (p ≢ latest.root)))
  unfolding seal_checked
  seal_checked-refused c now entries p e h = elim (Option-cases (link_error c.trees p)) [
    | inl accepted ↦ absurd (ground (arith, accepted))
    | inr (x, refused) ↦ (ground (arith, refused), link_error-some c.trees p x refused)
  ]

  seal_checked-accepts :
      (c : AuditChain) (now : ℕ) (entries : List Bytes) (p : Bytes)
      → link_error c.trees p ≡ none
      → (seal_checked sha c now entries p).1 ≡ ok (sealed_tree sha c now entries p)
  unfolding seal_checked
  seal_checked-accepts c now entries p h = ground arith

  -- Linking to `LatestRoot()` is accepted, on an empty chain and on any whose latest root is not empty;
  -- once the latest batch has the empty root, which a batch of no entries has, every call is refused.
  pub seal_checked-latest :
      (c : AuditChain) (now : ℕ) (entries : List Bytes)
      → ((c.trees ≡ []) ⊎ (latest_root c ≢ [])
          → (seal_checked sha c now entries (latest_root c)).1
            ≡ ok (sealed_tree sha c now entries (latest_root c)))
        × (c.trees ≢ []
            → latest_root c ≡ []
            → (p : Bytes) → (e : SealError) × (seal_checked sha c now entries p).1 ≡ err e)
  unfolding seal_checked latest_root
  seal_checked-latest c now entries = (
    (λ h. seal_checked-accepts c now entries (latest_root c) (link_error-latest c h)),
    (λ filled dead p.
        let (e, refused) = link_error-dead c.trees p filled dead in (e, ground (arith, refused))),
  )
