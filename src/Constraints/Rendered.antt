-- ===== src/Constraints/Rendered.antt =====
-- clc.go: `ConstraintToCapability` on the texts that `ConstraintStrings` makes.
use Prim.Native.Char.{Char, code}
use Prim.Native.String.{◌++◌ as append, ◌∷◌ as char}
use text.Mathlib.TextLemmas.{nil-append, cons-append, append_assoc, cons≢nil}
use text.Mathlib.TextEquality.{Char-path}
use aic_verifier.Merkle.{Bytes}
use aic_verifier.Model.{Capability, Pki}
use aic_verifier.Clc.{Semantics, canonical_scheme, constraint_string}
use aic_verifier.Prelude.{
  ◌≡◌, refl, sym, ap, ◌∙◌, String, Bool, true, false, ◌||◌, Option, some, List, [], ◌∷◌, arith,
  str_eq, eq_iff, join, ◌==◌, Bool-cases, inl, inr, bytes_equal, bytes_equal→eq, ◌⊎◌,
}
use aic_verifier.Constraints.Obligations.{
  with_first, split, with_crumb, without_crumb, of_parts, constraint_to_capability,
}

-- a text without a colon
abbrev pub IsWord : String → Type 0
IsWord String.[] = Unit
IsWord (String.◌∷◌ c s) = ((code c == b':') ≡ false) × IsWord s

split-word : (w s : String) → IsWord w → split (append w (append ":" s)) ≡ w ∷ split s
unfolding split
split-word String.[] s word =
    rw (nil-append (append ":" s)) (rw (cons-append ":" String.[] s) (rw (nil-append s) refl))
split-word (String.◌∷◌ c w) s word =
    let below = split-word w s word.1 in
    rw (cons-append c w (append ":" s)) (rw (word.0, split) (rw below refl))

split-alone : (w : String) → IsWord w → split w ≡ w ∷ []
unfolding split
split-alone String.[] word = refl
split-alone (String.◌∷◌ c w) word = rw (word.0, split) (rw (split-alone w word.1) refl)

join-with_first : (c : Char) (ws : List String) → join ":" (with_first c ws) ≡ char c (join ":" ws)
unfolding join
join-with_first c [] = refl
join-with_first c (w ∷ []) = refl
join-with_first c (w ∷ v ∷ ws) = cons-append c w (append ":" (join ":" (v ∷ ws)))

split-cons : (s : String) → (w : String) × (ws : List String) × (split s ≡ w ∷ ws)
unfolding split
split-cons String.[] = ("", [], refl)
split-cons (String.◌∷◌ c s) =
    let (w, ws, e) = split-cons s in
    elim (Bool-cases (code c == b':')) [
      | inl colon ↦ ("", w ∷ ws, rw (colon, split) (rw e refl))
      | inr other ↦ (char c w, ws, rw (other, split) (rw e refl))
    ]

join-split : (s : String) → join ":" (split s) ≡ s
unfolding split join
join-split String.[] = refl
join-split (String.◌∷◌ c s) = elim (Bool-cases (code c == b':')) [
  | inr other ↦ rw (other, split) (join-with_first c (split s) ∙ ap (λ r. char c r) (join-split s))
  | inl colon ↦
      let (w, ws, e) = split-cons s in
      let same : c ≡ ":" = Char-path c ":" (ground (arith, colon)) in
      let whole : join ":" (w ∷ ws) ≡ s = sym (ap (λ l. join ":" l) e) ∙ join-split s in
      rw (colon, split)
        (rw e (
          nil-append (append ":" (join ":" (w ∷ ws)))
          ∙ cons-append ":" String.[] (join ":" (w ∷ ws))
          ∙ ap (λ r. char ":" r) (nil-append (join ":" (w ∷ ws)) ∙ whole)
          ∙ ap (λ d. char d s) (sym same)))
]

abbrev pub takes_crumb : String → Bool
takes_crumb kind = str_eq kind "time" || str_eq kind "network"

abbrev pub IsName : String → Type 0
IsName w = IsWord w × (str_eq w "" ≡ false)

abbrev pub read_as : String → String → Bytes → Option Capability
read_as scheme id parameters =
    some (record { scheme_id = scheme; capability_id = id; parameters = parameters })

module _ (bytes_of : String → Bytes) (scheme : String) (named : IsName scheme) where
  without_crumb-split :
      (kind text : String)
      → without_crumb bytes_of scheme kind (split text) ≡ read_as scheme kind (bytes_of text)
  unfolding without_crumb
  without_crumb-split kind text =
      let (w, ws, e) = split-cons text in
      let whole : join ":" (w ∷ ws) ≡ text = sym (ap (λ l. join ":" l) e) ∙ join-split text in
      rw e (ap (λ t. read_as scheme kind (bytes_of t)) whole)

  with_crumb-split :
      (kind crumb text : String)
      → with_crumb bytes_of scheme kind (crumb ∷ split text)
        ≡ read_as scheme (append kind (append ":" crumb)) (bytes_of text)
  unfolding with_crumb
  with_crumb-split kind crumb text =
      let (w, ws, e) = split-cons text in
      let whole : join ":" (w ∷ ws) ≡ text = sym (ap (λ l. join ":" l) e) ∙ join-split text in
      rw e (ap (λ t. read_as scheme (append kind (append ":" crumb)) (bytes_of t)) whole)

  read_plain :
      (kind text : String)
      → IsName kind
      → takes_crumb kind ≡ false
      → constraint_to_capability bytes_of
          (append scheme (append ":" (append kind (append ":" text))))
        ≡ read_as scheme kind (bytes_of text)
  unfolding constraint_to_capability of_parts
  read_plain kind text (word, given) plain =
      rw (split-word scheme (append kind (append ":" text)) named.0) (
        rw (split-word kind text word)
          (rw named.1 (rw given (rw plain (without_crumb-split kind text)))))

  read_bare :
      (kind : String)
      → IsName kind
      → takes_crumb kind ≡ false
      → constraint_to_capability bytes_of (append scheme (append ":" kind)) ≡ read_as scheme kind []
  unfolding constraint_to_capability of_parts without_crumb
  read_bare kind (word, given) plain =
      rw (split-word scheme kind named.0)
        (rw (split-alone kind word) (rw named.1 (rw given (rw plain refl))))

  read_crumb :
      (kind crumb text : String)
      → IsName kind
      → takes_crumb kind ≡ true
      → IsWord crumb
      → constraint_to_capability bytes_of
          (append scheme (append ":" (append kind (append ":" (append crumb (append ":" text))))))
        ≡ read_as scheme (append kind (append ":" crumb)) (bytes_of text)
  unfolding constraint_to_capability of_parts
  read_crumb kind crumb text (word, given) takes piece =
      rw (split-word scheme (append kind (append ":" (append crumb (append ":" text)))) named.0) (
        rw (split-word kind (append crumb (append ":" text)) word) (
          rw (split-word crumb text piece)
            (rw named.1 (rw given (rw takes (with_crumb-split kind crumb text))))))

not_empty : (w r : String) → str_eq w "" ≡ false → str_eq (append w r) "" ≡ false
not_empty String.[] r h = absurd (ground (arith, h))
not_empty (String.◌∷◌ c w) r h =
    rw (cons-append c w r) (elim (Bool-cases (str_eq (char c (append w r)) "")) [
      | inl empty ↦ elim (cons≢nil ((eq_iff (char c (append w r)) "").0 empty)) [ ]
      | inr given ↦ given
    ])

-- a constraint whose id is one word, or a type with its crumb and then with parameters
abbrev pub IsReadable : Capability → Type 0
IsReadable c =
    (IsName c.capability_id × (takes_crumb c.capability_id ≡ false))
    ⊎ ((kind : String) × (crumb : String) × (c.capability_id ≡ append kind (append ":" crumb))
        × IsName kind
        × (takes_crumb kind ≡ true)
        × IsWord crumb
        × (bytes_equal c.parameters [] ≡ false))

module _ (p : Pki) (s : Semantics) (bytes_of : String → Bytes) where
  -- A constraint is read back from its text under the canonical name of its scheme, where that name is
  -- not empty and has no colon, the id is one word that is neither of the two types with a crumb or is
  -- such a type with a crumb that has no colon, followed by parameters, and the bytes of the parameters'
  -- text are the parameters.
  pub constraint_round_trip :
      (c : Capability)
      → bytes_of (s.text_of c.parameters) ≡ c.parameters
      → IsName (canonical_scheme c.scheme_id)
      → IsReadable c
      → constraint_to_capability bytes_of (constraint_string p s c)
        ≡ read_as (canonical_scheme c.scheme_id) c.capability_id c.parameters
  unfolding constraint_string
  constraint_round_trip c bytes named (inl (word, plain)) =
      let scheme = canonical_scheme c.scheme_id in
      let text = s.text_of c.parameters in
      rw word.1 (elim (Bool-cases (bytes_equal c.parameters [])) [
        | inl nothing ↦ rw nothing (
            read_bare bytes_of scheme named c.capability_id word plain
            ∙ ap (λ b. read_as scheme c.capability_id b)
                (sym (bytes_equal→eq c.parameters [] nothing)))
        | inr some_bytes ↦ rw some_bytes (
            ap (λ t. constraint_to_capability bytes_of t)
              (append_assoc scheme (append ":" c.capability_id) (append ":" text)
                ∙ ap (λ t. append scheme t) (append_assoc ":" c.capability_id (append ":" text)))
            ∙ read_plain bytes_of scheme named c.capability_id text word plain
            ∙ ap (λ b. read_as scheme c.capability_id b) bytes)
      ])
  constraint_round_trip c bytes named (inr (kind, crumb, id, word, takes, piece, given)) =
      let scheme = canonical_scheme c.scheme_id in
      let text = s.text_of c.parameters in
      let tail = append crumb (append ":" text) in
      let not_bare : str_eq c.capability_id "" ≡ false =
        ap (λ i. str_eq i "") id ∙ not_empty kind (append ":" crumb) word.1 in
      let shape : append (append scheme (append ":" c.capability_id)) (append ":" text)
          ≡ append scheme (append ":" (append kind (append ":" tail))) =
        ap (λ i. append (append scheme (append ":" i)) (append ":" text)) id
        ∙ append_assoc scheme (append ":" (append kind (append ":" crumb))) (append ":" text)
        ∙ ap (λ t. append scheme t)
            (append_assoc ":" (append kind (append ":" crumb)) (append ":" text)
              ∙ ap (λ t. append ":" t)
                  (append_assoc kind (append ":" crumb) (append ":" text)
                    ∙ ap (λ t. append kind t) (append_assoc ":" crumb (append ":" text)))) in
      rw not_bare (
        rw given (
          ap (λ t. constraint_to_capability bytes_of t) shape
          ∙ read_crumb bytes_of scheme named kind crumb text word takes piece
          ∙ ap (λ i. read_as scheme i (bytes_of text)) (sym id)
          ∙ ap (λ b. read_as scheme c.capability_id b) bytes))
