-- ===== src/Transform/Policies.antt =====
-- The policies for invalid JSON and failed evaluation of src/transform/jsonata.rs.
pub data InvalidJsonPolicy : Type 0 where
  fail drop tombstone pass : InvalidJsonPolicy

pub data EvaluationPolicy : Type 0 where
  fail drop tombstone : EvaluationPolicy

pub record ErrorPolicies : Type 0 where
  pub invalid_json : InvalidJsonPolicy
  pub evaluation : EvaluationPolicy
