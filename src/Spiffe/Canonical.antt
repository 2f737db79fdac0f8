-- ===== src/Spiffe/Canonical.antt =====
-- spiffe.go: the comparison of SPIFFE identities by their canonical form.
use Prim.Native.Char.{code}
use Prim.Native.String.{◌++◌ as append, len, slice}
use text.Mathlib.TextLemmas.{append_cancel_left, nil-append, cons-append}
use text.Mathlib.TextPositions.{starts_with-append, slice-append_right, len-append}
use aic_verifier.Prelude.{◌≡◌, ◌↔◌, refl, ap, ◌∙◌, sym, String, true, false, ◌==◌}
use aic_verifier.Spiffe.{scheme_prefix, before_slash, from_slash, canonical_spiffe_id}

-- a host has no slash, and a path is empty or begins with one
abbrev pub IsHost : String → Type 0
IsHost String.[] = Unit
IsHost (String.◌∷◌ c s) = ((code c == b'/') ≡ false) × IsHost s

abbrev pub IsPath : String → Type 0
IsPath String.[] = Unit
IsPath (String.◌∷◌ c s) = (code c == b'/') ≡ true

split_lem :
    (h q : String)
    → IsHost h
    → IsPath q
    → (before_slash (append h q) ≡ h) × (from_slash (append h q) ≡ q)
unfolding before_slash from_slash
split_lem String.[] String.[] host path = (refl, refl)
split_lem String.[] (String.◌∷◌ c s) host path = (
  rw (nil-append (String.◌∷◌ c s)) (rw (path, before_slash)),
  rw (nil-append (String.◌∷◌ c s)) (rw (path, from_slash)),
)
split_lem (String.◌∷◌ c s) q host path =
    let (b, f) = split_lem s q host.1 path in
    (
      rw (cons-append c s q) (rw (host.0, before_slash) (rw b)),
      rw (cons-append c s q) (rw (host.0, from_slash) f),
    )

-- the identity of a host and a path
abbrev pub spiffe_uri : String → String → String
spiffe_uri h q = append scheme_prefix (append h q)

module _ (to_lower : String → String) (hosts : (h : String) → IsHost h → IsHost (to_lower h)) where
  canonical-uri :
      (h q : String)
      → IsHost h
      → IsPath q
      → canonical_spiffe_id to_lower (spiffe_uri h q) ≡ spiffe_uri (to_lower h) q
  unfolding canonical_spiffe_id
  canonical-uri h q host path =
      let rest : slice (spiffe_uri h q) 9 (len (spiffe_uri h q)) ≡ append h q =
        rw (len-append scheme_prefix (append h q))
          (slice-append_right scheme_prefix (append h q)) in
      let (b, f) = split_lem h q host path in
      rw (starts_with-append scheme_prefix (append h q)) (rw rest (rw b (rw f refl)))

  -- Where lower case has no slash that was not there: two SPIFFE identities have one canonical form
  -- exactly if their paths are equal and their trust domains are equal in lower case.
  pub canonical_iff :
      (h q h' q' : String)
      → IsHost h
      → IsPath q
      → IsHost h'
      → IsPath q'
      → (canonical_spiffe_id to_lower (spiffe_uri h q)
          ≡ canonical_spiffe_id to_lower (spiffe_uri h' q'))
        ↔ ((to_lower h ≡ to_lower h') × (q ≡ q'))
  canonical_iff h q h' q' host path host' path' = (
    (λ e.
        let parts : append (to_lower h) q ≡ append (to_lower h') q' =
          append_cancel_left scheme_prefix (append (to_lower h) q) (append (to_lower h') q')
            (sym (canonical-uri h q host path) ∙ (e ∙ canonical-uri h' q' host' path')) in
        let (b, f) = split_lem (to_lower h) q (hosts h host) path in
        let (b', f') = split_lem (to_lower h') q' (hosts h' host') path' in
        (sym b ∙ (ap before_slash parts ∙ b'), sym f ∙ (ap from_slash parts ∙ f'))),
    (λ e.
        canonical-uri h q host path
        ∙ (rw e.0 (rw e.1 refl) ∙ sym (canonical-uri h' q' host' path'))),
  )
