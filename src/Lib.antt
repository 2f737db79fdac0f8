-- ===== src/Lib.antt =====
-- The decision core of the verifier for agent identity certificates (AIC), modelled from the Go sources at
-- the repository's root.
--
-- The program admits a client: an agent presents a certificate whose AIC extension carries capabilities and
-- a delegation that its principal has signed. `decide` resolves the credential of a request and calls
-- `RunAccessPipeline`, which checks the validity and revocation of the chain, the roles and the SPIFFE
-- identity, calls `CheckAdmission`, and then holds the admitted capabilities against parameter bounds, a
-- registry and plugins. The audit entries that the verifier writes are sealed batch by batch in a chain of
-- Merkle trees.
--
-- Files:
--   Prelude        Boolean tests, lists over the native numbers, names passed on from the libraries.
--   Merkle         merkle.go, the tree: HashLeaf, HashNode, NewMerkleTree, Proof, VerifyProof and
--                  VerifyProofBounded. A batch is a list of byte strings; the loop over the levels runs on
--                  fuel, the number of leaves, of which every round leaves half, rounded up.
--   Hex            encoding/hex, as merkle.go uses it.
--   Chain          merkle.go, AuditChain: Seal, SealChecked, VerifyContinuity, Verify, VerifyJSON. The mutex
--                  makes each call one step, so a history is a sequence of calls.
--   Model          the certificate and the extensions as records, and the functions of
--                  github.com/varwof/types as the fields of `Pki`.
--   Nonce          nonce_cache.go: CheckAndAdd and cleanup, times in nanoseconds.
--   BearerReplay   jwt.go: memReplayStore with NewReplayNonceStore and CheckAndAdd, for bearer tokens.
--   Bearer         jwt.go: SetBearerPolicy; SynthesizeCertFromJWT with its helpers (Certificate) and VerifyBearer
--                  (Verify). The validation of a token by aicjwt is a field of `TokenLib`.
--   Capability     MatchCapability of policy.go, and the matching of capability lists in decision.go and
--                  pipeline.go.
--   DelegationAuth decision.go: VerifyDelegationAuthWithAgent with its version negotiation, and
--                  CheckDAFreshness. `Crypto` holds the primitives of crypto, asn1 and x509.
--   DelegationChain delegation_chain.go and DelegationChainVerifier.Verify of decision.go.
--   Clc            clc.go: the decision of concrete operations; `Semantics` holds register/semantics.
--   Constraints    constraints.go: the registry, the evaluators, the times of windows and the recheck loop;
--                  the checks over the registry in decision.go.
--                  Obligations holds ConnectionConstraintEvaluator of clc.go.
--   Risk           riskmonitor.go: the violations of each agent and the rules of RecordViolation. Due says
--                  when a rule is due over the stored violations.
--   Roles          rbac.go, and the roles and grants of policy.go.
--   Admission      decision.go: CheckAdmission. Guards, Delegated and Effective hold its stages, Decide
--                  composes them in the order of the function, and the other children are its theorems.
--   Revocation     crl.go: CRLCache with refresh and IsRevokedCert; ocsp.go: OCSPCache.Check. The network's
--                  replies are arguments.
--   Spiffe         spiffe.go. Parameters: parameters.go.
--   Pipeline       pipeline.go: RunAccessPipeline in stages, with LogPluginDecision of audit.go. Status,
--                  Identity and Capabilities hold the stages, Run composes them. `PipelineState` is the
--                  admission's state, the answers of the responder, the log of plugin decisions and the risk
--                  monitor; `Platform` holds the third-party functions.
--   TrustLayers    trust_model.go: VerifyLayer1 to VerifyLayer3 and VerifyTrustLayers.
--   Decide         decide.go: resolveCredential, pipelineConfig and decide; supervise and
--                  checkEvidenceRequirement of aicverifier.go.
--   AuditLog       audit.go: RotatingFile (Rotation), AuditLogger (Logger), ReadAuditEntries (Query, with the
--                  loop in Read), FindStartOffsetByTime (Search) and readAuditEntriesReverse (Reverse). A
--                  file is its bytes. The search runs on as many rounds as the file has bytes, and one
--                  more; so does the reader from the end. Each round makes the interval smaller, or reads
--                  a byte.
--   Supervision    supervision_store.go: Record, Close and Query over RotatingFile.
--   Mask           mask.go: MaskString, MaskToken, MaskFilePath, maskBasename and MaskEmail, on ASCII bytes.
--   Examples       a toy hash, toy keys and certificates at which the theorems are applied.
--
-- Correspondence: an operation has the Go function's name in snake case; a nil pointer is `none`; a Go
-- error is a constructor of an error type, or `error` of `Fallible` where only its presence matters; a
-- callee that a third party supplies is a field of a parameter. State is passed in and out: `World` is the
-- nonce cache with the warnings of the audit log. A limit that the code reads as unset when it is not
-- positive is given as 0.
--
-- Not modelled: the parsing of tokens and the loading of their issuers' certificates (jwt.go);
-- `decide` takes the result of verifying a token as an argument. MaskCertSerial and SanitizeString
-- (mask.go); the evidence records, their signing and challenge documents; the constructors of audit
-- entries; the HTTP, gRPC and MCP adapters, configuration and logging, which are I/O or calls of
-- third-party packages. The clock is read once for a run of the pipeline, where the code reads it at
-- several places.
pub mod Prelude
pub mod Merkle
pub mod Hex
pub mod AuditLog
pub mod Bearer
pub mod BearerReplay
pub mod Chain
pub mod Model
pub mod Nonce
pub mod Capability
pub mod DelegationAuth
pub mod DelegationChain
pub mod Clc
pub mod Constraints
pub mod Revocation
pub mod Spiffe
pub mod Parameters
pub mod Risk
pub mod Roles
pub mod Admission
pub mod Pipeline
pub mod Mask
pub mod Supervision
pub mod TrustLayers
pub mod Decide
pub mod Examples
