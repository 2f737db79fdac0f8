-- ===== src/Revocation/Crl/Refreshed.antt =====
-- crl.go: the list in force after refreshes, and what `IsRevokedCert` answers from it.
use Prim.Native.String.{◌++◌ as append}
use text.Mathlib.TextLemmas.{append_cancel_left}
use aic_verifier.Prelude.{
  ℕ, ◌≤◌, ◌≡◌, refl, ap, ◌∙◌, String, Bool, true, false, ◌&&◌, ◌||◌, Option, none, some, List, [],
  ◌∷◌, map, any, contains, ◌==◌, eq_iff, arith, Bool-cases, inl, inr, if◌then◌else◌,
}
use aic_verifier.Merkle.{Bytes}
use aic_verifier.Model.{Cert, Pki, value, error}
use aic_verifier.Revocation.Crl.{
  RevocationList, CrlLib, CrlCache, newer, is_zero_time, is_after, take, max_body,
  issuer_matches_ca, revocation_key, is_revoked_cert, list_bytes, issued_by_ca, install,
  accept_list, refresh,
}

abbrev pub NoLater : Option ℕ → Option ℕ → Type 0
NoLater none u = Unit
NoLater (some t) none = ⊥
NoLater (some t) (some u) = t ≤ u

NoLater-refl : (t : Option ℕ) → NoLater t t
NoLater-refl none = tt
NoLater-refl (some t) = omega arith

NoLater-trans : (t u v : Option ℕ) → NoLater t u → NoLater u v → NoLater t v
NoLater-trans none u v h k = tt
NoLater-trans (some t) none v h k = elim h [ ]
NoLater-trans (some t) (some u) none h k = elim k [ ]
NoLater-trans (some t) (some u) (some v) h k = omega arith

-- the list of a response
abbrev pub list_of : CrlLib → Option Bytes → Option RevocationList
list_of lib none = none
list_of lib (some response) = lib.parse_der_crl (list_bytes lib (take max_body response))

abbrev pub may_follow : RevocationList → CrlCache → Bool
may_follow crl c = newer crl.this_update c.this_update || is_zero_time c.this_update

module _ (p : Pki) (lib : CrlLib) where
  -- what an accepted response has brought
  pub record Accepted (c : CrlCache) (now : ℕ) (crl : RevocationList) (c' : CrlCache) : Type 0 where
    pub issued : issued_by_ca lib c.ca_cert crl ≡ true
    pub signed : lib.check_crl_signature c.ca_cert crl ≡ true
    pub follows : may_follow crl c ≡ true
    pub held : c' ≡ record c {
      revoked = map (revocation_key p c.ca_dn) crl.revoked_certificates;
      this_update = crl.this_update;
      next_update = crl.next_update;
      last_refresh = some now;
    }

  accept_list-Accepted :
      (c : CrlCache) (now : ℕ) (list : Option RevocationList)
      → (accept_list p lib c now list).1 ≡ true
      → (crl : RevocationList) × ((list ≡ some crl)
          × Accepted c now crl (accept_list p lib c now list).0)
  unfolding accept_list install
  accept_list-Accepted c now none h = absurd (ground arith)
  accept_list-Accepted c now (some crl) h = elim (Bool-cases (issued_by_ca lib c.ca_cert crl)) [
    | inr other ↦ absurd (ground (arith, other))
    | inl issued ↦ elim (Bool-cases (lib.check_crl_signature c.ca_cert crl)) [
      | inr forged ↦ absurd (ground (arith, issued, forged))
      | inl signed ↦ elim (Bool-cases (may_follow crl c)) [
        | inr stale ↦ absurd (ground (arith, issued, signed, stale))
        | inl follows ↦ (
          crl,
          (
            refl,
            record {
              issued = issued;
              signed = signed;
              follows = follows;
              held = ground (arith, issued, signed, follows);
            },
          ),
        )
      ]
    ]
  ]

  accept_list-refused :
      (c : CrlCache) (now : ℕ) (list : Option RevocationList)
      → (accept_list p lib c now list).1 ≡ false
      → (accept_list p lib c now list).0 ≡ c
  unfolding accept_list install
  accept_list-refused c now none h = refl
  accept_list-refused c now (some crl) h = ground arith

  refresh-Accepted :
      (c : CrlCache) (now : ℕ) (response : Option Bytes)
      → (refresh p lib c now response).1 ≡ true
      → (crl : RevocationList) × ((list_of lib response ≡ some crl)
          × Accepted c now crl (refresh p lib c now response).0)
  unfolding refresh
  refresh-Accepted c now none h = absurd (ground arith)
  refresh-Accepted c now (some r) h = accept_list-Accepted c now (list_of lib (some r)) h

  refresh-refused :
      (c : CrlCache) (now : ℕ) (response : Option Bytes)
      → (refresh p lib c now response).1 ≡ false
      → (refresh p lib c now response).0 ≡ c
  unfolding refresh
  refresh-refused c now none h = refl
  refresh-refused c now (some r) h = accept_list-refused c now (list_of lib (some r)) h

  module _ (distinct : (m n : ℕ) → p.serial_text m ≡ p.serial_text n → m ≡ n) where
    contains-keys :
        (dn : String) (serials : List ℕ) (n : ℕ)
        → contains (map (revocation_key p dn) serials) (revocation_key p dn n)
          ≡ any (λ m. n == m) serials
    contains-keys dn [] n = refl
    contains-keys dn (m ∷ serials) n = elim (Bool-cases (n == m)) [
      | inl same ↦
          let e : n ≡ m = ground (arith, same) in
          ground (
            arith,
            same,
            ap (revocation_key p dn) e,
            eq_iff (revocation_key p dn n) (revocation_key p dn m),
          )
      | inr apart ↦ ground (
        arith,
        apart,
        contains-keys dn serials n,
        eq_iff (revocation_key p dn n) (revocation_key p dn m),
        λ (e : revocation_key p dn n ≡ revocation_key p dn m). distinct n m (
            append_cancel_left "|" (p.serial_text n) (p.serial_text m) (
              append_cancel_left dn (append "|" (p.serial_text n)) (append "|" (p.serial_text m))
                e)),
      )
    ]

    -- Where distinct serial numbers have distinct texts: an accepted response brings a list that the
    -- authority issued and signed, and that is newer than the one before if there was one. Until the
    -- list's next update, a certificate is reported as revoked exactly if its issuer is the authority
    -- and its serial number is in the list; after that every question is an error.
    pub refresh_answers :
        (c : CrlCache) (now : ℕ) (response : Option Bytes)
        → (refresh p lib c now response).1 ≡ true
        → (crl : RevocationList) × ((list_of lib response ≡ some crl)
            × ((issued_by_ca lib c.ca_cert crl ≡ true)
                × (lib.check_crl_signature c.ca_cert crl ≡ true)
                × (may_follow crl c ≡ true))
            × ((cert : Cert) (later : ℕ)
                → is_revoked_cert p lib (refresh p lib c now response).0 later cert ≡ (
                    if is_after later crl.next_update
                    then error
                    else value (
                        issuer_matches_ca lib c cert
                        && any (λ m. cert.serial_number == m) crl.revoked_certificates))))
    unfolding is_revoked_cert issuer_matches_ca
    refresh_answers c now response h =
        let (crl, (parsed, a)) = refresh-Accepted c now response h in
        (
          crl,
          (
            parsed,
            (a.issued, a.signed, a.follows),
            (λ cert later.
                ground (
                  arith,
                  a.held,
                  contains-keys c.ca_dn crl.revoked_certificates cert.serial_number,
                )),
          ),
        )

  -- a run of refreshes, each at its time
  abbrev pub refresh_all : CrlCache → List (ℕ × Option Bytes) → CrlCache
  refresh_all c [] = c
  refresh_all c ((now, response) ∷ rest) = refresh_all (refresh p lib c now response).0 rest

  abbrev pub Kept : CrlCache → CrlCache → Type 0
  Kept c c' = (c'.ca_cert ≡ c.ca_cert) × (c'.ca_dn ≡ c.ca_dn) × NoLater c.this_update c'.this_update

  follows-NoLater : (t u : Option ℕ) → newer u t || is_zero_time t ≡ true → NoLater t u
  follows-NoLater none u h = tt
  follows-NoLater (some t) none h = absurd (ground arith)
  follows-NoLater (some t) (some u) h = ground arith

  refresh-Kept :
      (c : CrlCache) (now : ℕ) (response : Option Bytes) → Kept c (refresh p lib c now response).0
  refresh-Kept c now response = elim (Bool-cases (refresh p lib c now response).1) [
    | inr refused ↦
        rw (refresh-refused c now response refused) (refl, refl, NoLater-refl c.this_update)
    | inl ok ↦
        let (crl, (parsed, a)) = refresh-Accepted c now response ok in
        rw a.held (refl, refl, follows-NoLater c.this_update crl.this_update a.follows)
  ]

  -- No run of refreshes changes the authority, or brings back a list older than the one in force.
  pub refresh_all-Kept :
      (c : CrlCache) (responses : List (ℕ × Option Bytes)) → Kept c (refresh_all c responses)
  refresh_all-Kept c [] = (refl, refl, NoLater-refl c.this_update)
  refresh_all-Kept c ((now, response) ∷ rest) =
      let c1 = (refresh p lib c now response).0 in
      let (ca, dn, t) = refresh-Kept c now response in
      let (ca', dn', t') = refresh_all-Kept c1 rest in
      (
        ca' ∙ ca,
        dn' ∙ dn,
        NoLater-trans c.this_update c1.this_update (refresh_all c1 rest).this_update t t',
      )
