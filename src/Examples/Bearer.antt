-- ===== src/Examples/Bearer.antt =====
-- The theorem on one-time tokens at tokens whose text is their identifier.
use aic_verifier.Prelude.{
  ℕ, ◌+◌, ◌≡◌, refl, String, true, none, some, [], ◌∷◌, inl, inr, leb, all, ◌≤◌, arith,
}
use aic_verifier.Model.{Cert, other_key}
use aic_verifier.BearerReplay.{MemReplayStore, check_and_add, first_use, record_new, keep_bounded}
use aic_verifier.BearerReplay.SingleUse.{run_calls}
use aic_verifier.Bearer.{OuterClaims, AicClaims, JwtVerifier, TokenLib, BearerError}
use aic_verifier.Bearer.Certificate.{synthesize_cert_from_jwt, serial_from_jwt, set_bytes}
use aic_verifier.Bearer.Verify.{verify_bearer, verify_options, take_jti}
use aic_verifier.Bearer.Held.{Honest, Presented, present, present_all}
use aic_verifier.Bearer.Taken.{lifetime}
use aic_verifier.Bearer.OneTime.{bearer_single_use}

abbrev aic_claims : AicClaims
aic_claims = record {
  delegation_mode = "representative";
  principal_id = "alice";
  principal_realm = "";
  principal_key_hash = "";
  capabilities = [];
  constraints = [];
}

abbrev claims_of : String → OuterClaims
claims_of token = record {
  iss = "ca";
  sub = "agent";
  jti = token;
  iat = 10;
  exp = 20;
  aic = some aic_claims;
}

abbrev token_lib : TokenLib
token_lib = record {
  validate = λ token vo st. (st, true);
  claims = λ token. some (claims_of token);
  marshal_aic = λ aic lifetime. some [];
  decode_base64 = λ t. [];
  sha256_text = λ t. 1 ∷ [];
  mode_representative = "representative";
  oid_aic = "1.2.3";
  uid_text = λ realm id hash. id;
  name_text = λ cn. cn;
}

abbrev verifier : JwtVerifier
verifier = record { roots = ("kid", other_key) ∷ []; expected_issuer = ""; expected_audience = [] }

abbrev store : MemReplayStore
store = record { seen = []; ttl = 100; max = 8 }

abbrev shown : String → ℕ → Presented
shown token now = record { opts = none; token = token; now = now }

token_lib-Honest : Honest token_lib
unfolding run_calls
token_lib-Honest token vo s = ([], refl, refl)

abbrev cert_a : Cert
cert_a = record {
  common_name = "agent";
  organizational_unit = [];
  issuer = "ca";
  serial_number = 1;
  not_before = 10_000_000_000;
  not_after = 20_000_000_000;
  uris = [];
  public_key = none;
  raw_spki = [];
  raw_issuer = [];
  raw_subject = [];
  extensions = ("1.2.3", []) ∷ [];
  raw = [];
}

first_accepted :
    (present token_lib verifier (shown "a" 12) (some store)).1 ≡ inr (cert_a, claims_of "a")
unfolding verify_bearer verify_options take_jti check_and_add first_use record_new keep_bounded
    synthesize_cert_from_jwt serial_from_jwt set_bytes
first_accepted = refl

others_early :
    all
      (λ (p : Presented).
        leb p.now (12 + lifetime (present token_lib verifier (shown "a" 12) (some store)).0))
      (shown "b" 13 ∷ shown "a" 14 ∷ [])
    ≡ true
unfolding verify_bearer verify_options take_jti check_and_add first_use record_new keep_bounded
others_early = refl

again_early : 50 ≤ 12 + lifetime (present token_lib verifier (shown "a" 12) (some store)).0
unfolding verify_bearer verify_options take_jti check_and_add first_use record_new keep_bounded
again_early = omega arith

bearer_single_use_example :
    (e : BearerError) × ((present token_lib verifier (shown "a" 50) (
        present_all token_lib verifier
          (shown "b" 13 ∷ shown "a" 14 ∷ [])
          (present token_lib verifier (shown "a" 12) (some store)).0)).1
      ≡ inl e)
bearer_single_use_example =
    bearer_single_use token_lib verifier (shown "a" 12) (shown "a" 50)
      (shown "b" 13 ∷ shown "a" 14 ∷ []) store cert_a (claims_of "a") (claims_of "a")
      token_lib-Honest first_accepted refl refl others_early again_early
