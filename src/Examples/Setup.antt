-- ===== src/Examples/Setup.antt =====
-- A toy hash with digests of 32 bytes, toy certificates of a principal and of its agents, and the
-- third-party functions over them.
use aic_verifier.Prelude.{
  ℕ, zero, suc, ◌+◌, ◌*◌, ◌%◌, ◌≡◌, refl, ap, String, true, false, none, some, List, [], ◌∷◌, arith,
  length, get_elem?, leb, ◌==◌, bytes_equal, str_eq, if◌then◌else◌, map,
}
use aic_verifier.Merkle.{Bytes, Sha256}
use aic_verifier.Model.{
  Cert, Capability, Aic, PrincipalAuthorization, ecdsa, Pki, value, ecdsa_with_sha256, sha256,
}
use aic_verifier.DelegationAuth.{Crypto}
use aic_verifier.Clc.{Semantics, Decision, Verdict, allow, deny, allow_unresolved}

abbrev pub checksum : Bytes → ℕ
checksum [] = 0
checksum (b ∷ bs) = (b + 1 + 3 * checksum bs) % 256

abbrev pub copies : ℕ → ℕ → Bytes
copies zero b = []
copies (suc n) b = b ∷ copies n b

pub length-copies : (n b : ℕ) → length (copies n b) ≡ n
length-copies zero b = refl
length-copies (suc n) b = ap suc (length-copies n b)

copies-get : (n b i x : ℕ) → get_elem? (copies n b) i ≡ some x → b ≡ x
copies-get zero b i x h = absurd (ground arith)
copies-get (suc n) b zero x h = ground arith
copies-get (suc n) b (suc i) x h = copies-get n b i x h

checksum-byte : (bs : Bytes) → leb (checksum bs) 255 ≡ true
checksum-byte [] = refl
checksum-byte (b ∷ bs) = ground arith

pub toy_digest-bytes :
    (b : Bytes) (i x : ℕ) → get_elem? (copies 32 (checksum b)) i ≡ some x → leb x 255 ≡ true
toy_digest-bytes b i x h = rw (copies-get 32 (checksum b) i x h) at (checksum-byte b)

abbrev pub toy_sha : Sha256
toy_sha = record {
  sum = λ b. copies 32 (checksum b);
  length-sum = λ b. length-copies 32 (checksum b);
  sum_bytes = toy_digest-bytes;
}

abbrev pub cap : String → Capability
cap id = record { scheme_id = "mcp"; capability_id = id; parameters = [] }

abbrev pub cert_of : String → ℕ → Bytes → Cert
cert_of name serial spki = record {
  common_name = name;
  organizational_unit = [];
  issuer = "CN=ca";
  serial_number = serial;
  not_before = 0;
  not_after = 1000;
  uris = [];
  public_key = some (ecdsa spki);
  raw_spki = spki;
  raw_issuer = 1 ∷ [];
  raw_subject = spki;
  extensions = [];
  raw = spki;
}

abbrev pub alice : Cert
alice = cert_of "alice" 1 (10 ∷ [])

abbrev pub agent : Cert
agent = cert_of "agent" 7 (20 ∷ [])

-- another certificate that carries the delegation of `agent`
abbrev pub copycat : Cert
copycat = cert_of "copycat" 8 (20 ∷ [])

-- an agent that delegates on behalf of `agent`
abbrev pub helper : Cert
helper = cert_of "helper" 9 (30 ∷ [])

abbrev pub aic_signed_by : Bytes → List Capability → Aic
aic_signed_by key caps = record {
  version = 2;
  agent_id = "agent";
  principal_uid = record {
    key_hash = copies 32 (checksum key);
    hash_algo = sha256;
    text = "alice";
  };
  capabilities = caps;
  delegation_mode = 1;
  delegation_authorization = record {
    signature_algorithm = ecdsa_with_sha256;
    signature_value = key;
    nonce = copies 32 5;
    timestamp = some 100;
  };
  authorization_constraints = [];
}

abbrev pub agent_aic : Aic
agent_aic = aic_signed_by (10 ∷ []) (cap "read" ∷ cap "write" ∷ [])

abbrev pub helper_aic : Aic
helper_aic = aic_signed_by (20 ∷ []) (cap "read" ∷ [])

abbrev pub alice_grants : PrincipalAuthorization
alice_grants = record {
  grants = cap "read" ∷ cap "write" ∷ cap "admin" ∷ [];
  authorization_constraints = [];
  allowed_mode = 1;
}

abbrev pub toy_pki : Pki
toy_pki = record {
  sha = toy_sha;
  parse_aic = λ c. value (
      if c.serial_number == 1
      then none
      else if c.serial_number == 9
      then some helper_aic
      else some agent_aic);
  parse_user_permission = λ c. value (some alice_grants);
  validate_aic = λ a. true;
  has_protocol = λ a s. true;
  check_permission = λ a s. true;
  full_id = λ c. c.capability_id;
  is_present = λ d. true;
  grant_ids = λ pa. map (λ (c : Capability). c.capability_id) pa.grants;
  intersect_permissions = λ a pa. map (λ (c : Capability). c.capability_id) a.capabilities;
  file_match = str_eq;
  serial_text = λ n. if n == 7 then "7" else "8";
  serial_decimal = λ n. if n == 7 then "7" else "8";
}

-- a signature is the key that made it
abbrev pub toy_crypto : Crypto
toy_crypto = record {
  make_agent_key_binding = λ spki. some spki;
  validate_tbs_version = λ tbs. true;
  marshal_tbs = λ tbs. some (tbs.version ∷ []);
  marshal_spki = λ k. some (1 ∷ []);
  ecdsa_verify = λ key digest sig. bytes_equal sig key;
  rsa_pkcs1_verify = λ key digest sig. false;
  rsa_pss_verify = λ key digest sig. false;
}

abbrev pub toy_combine : Decision → Decision → Verdict → Verdict → Decision
toy_combine a b deny y = a
toy_combine a b x deny = b
toy_combine a b allow_unresolved y = a
toy_combine a b x y = b

-- every operation but "drop" is allowed
abbrev pub toy_semantics : Semantics
toy_semantics = record {
  validate_capability_id = λ id. true;
  validate_grant_params = λ q. true;
  validate_operation_params = λ q. true;
  authorize_set = λ grants id q. record {
    verdict = if str_eq id "drop" then deny else allow;
    reason = "";
    unresolved = [];
  };
  combine = λ a b. value (toy_combine a b a.verdict b.verdict);
  combine_error = λ a b. "";
  discharge = λ d known. true;
  fresh = λ c now. true;
  trim_space = λ t. t;
  unmarshal = λ t. some t;
  has_no_members = λ t. false;
  text_of = λ t. "";
}
