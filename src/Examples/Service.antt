-- ===== src/Examples/Service.antt =====
-- The theorems on the decision core and on time windows at a toy service.
use aic_verifier.Prelude.{◌↔◌, ◌≡◌, refl, true, false, none, some, [], ◌∷◌, str_eq, ltb}
use aic_verifier.Model.{Capability, value}
use aic_verifier.Constraints.{find, is_constraint_scheme, check_constraints_reg}
use aic_verifier.Pipeline.Run.{run_access_pipeline}
use aic_verifier.Parameters.{find as find_validator}
use aic_verifier.Decide.{
  RequestView, Authenticator, AuthContext, ServerState, mtls_or_bearer, pipeline_config,
}
use aic_verifier.Decide.Run.{auth_context}
use aic_verifier.Constraints.{
  ConstraintRegistry, ConstraintError, check_constraints_reg, find, is_constraint_scheme,
}
use aic_verifier.Constraints.Recheck.{
  done, tick, constraint_recheck_loop, CalledBack, BreaksFirst, recheck_iff,
}
use aic_verifier.Examples.Setup.{alice, cap}
use aic_verifier.Examples.Access.{gateway_platform, simple, fresh_state, client}

abbrev view : RequestView
view = record {
  cert_chain = client ∷ [];
  bearer_token = "";
  verified_cert = none;
  transport_secure = true;
  method = "GET";
  path = "/reports";
  client_ip = "10.0.0.1";
  http_facts = record { method = "GET"; path = "/reports"; query = []; headers = []; body = [] };
}

-- evidence is strict, a requirement is configured, and a person is asked
abbrev service : Authenticator
service = record {
  auth_mode = mtls_or_bearer;
  tls_cas = some (λ leaf rest. str_eq leaf.issuer "CN=ca");
  verifier = none;
  crl = none;
  ocsp = simple.ocsp_cache;
  require_aic = true;
  required_capabilities = "read" ∷ [];
  operations = simple.operations;
  disallow_representative = false;
  enforce_constraints = true;
  authorization_policy = none;
  constraints = [];
  parameter_validators = none;
  plugin_registry = none;
  capability_registry = none;
  has_audit_logger = true;
  has_nonce_cache = true;
  user_cert = some alice;
  user_cert_resolver = none;
  evidence_strict = true;
  emit_evidence = λ c r. ("record" ∷ [], true);
  evidence_requirement =
      some (record { is_valid = true; facts = λ ac. value []; evaluate = λ facts now. value true });
  need_approval = λ ac. true;
  approval_requester =
      some (λ risk. value (some (record { decision = "approved"; approver = "bob"; reason = "" })));
  has_supervision_store = true;
}

abbrev idle : ServerState
idle = record { pipeline = fresh_state; admissions = []; supervision = [] }

-- the context of the accepted request
abbrev admitted_context : AuthContext
admitted_context =
    auth_context client false
      (run_access_pipeline gateway_platform (pipeline_config service view false) 120 fresh_state
        (client ∷ [])).1
      ("record" ∷ [])

-- a constraint that holds until the time 50
abbrev until_fifty : ConstraintRegistry
until_fifty = ("read", λ c ip now. ltb now 50) ∷ []

abbrev timed : Capability
timed = record (cap "read") { scheme_id = "constraint" }

recheck_iff_example :
    CalledBack until_fifty []
      (timed ∷ [])
      ""
      true
      (constraint_recheck_loop until_fifty [] (timed ∷ []) "" true (tick 30 ∷ tick 60 ∷ done ∷ []))
    ↔ BreaksFirst until_fifty [] (timed ∷ []) "" true (tick 30 ∷ tick 60 ∷ done ∷ [])
recheck_iff_example =
    recheck_iff until_fifty [] (timed ∷ []) "" true refl (tick 30 ∷ tick 60 ∷ done ∷ [])

-- the constraint of the principal's authorization holds until fifty
called_back_once :
    constraint_recheck_loop until_fifty [] (timed ∷ []) "" true (tick 30 ∷ tick 60 ∷ done ∷ [])
    ≡ record { reported = ConstraintError.violated timed ∷ []; returned = true }
unfolding constraint_recheck_loop check_constraints_reg find is_constraint_scheme
called_back_once = refl
