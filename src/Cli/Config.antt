-- ===== src/Cli/Config.antt =====
-- `OutputPlan` and `RuntimeConfig` of src/cli.rs.
use jkq.Prelude.{Bytes, ℕ, Bool, true, false, ◌||◌, Option, none, some, List}
use jkq.Cli.{EnvelopePayload, StartPosition, EndPosition, KafkaErrorPolicy}
use jkq.Output.Tokens.{FormatToken}
use jkq.Output.Render.{OutputRequirements, requirements}
use jkq.Records.{RuntimeLimits}
use jkq.Transform.Engine.{Engine}
use jkq.Transform.Policies.{ErrorPolicies}
use jkq.Transform.Worker.{TransformPlan}
use jkq.Cli.Properties.{PropertyMap}

-- A compiled format is its tokens.
pub data OutputPlan : Type 0 where
  formatted : Option (List FormatToken) → List FormatToken → OutputPlan
  envelope : EnvelopePayload → OutputPlan

abbrev join_requirements : OutputRequirements → OutputRequirements → OutputRequirements
join_requirements a b = record {
  key = a.key || b.key;
  headers = a.headers || b.headers;
  timestamp = a.timestamp || b.timestamp;
}

unfoldable pub plan_requirements : OutputPlan → OutputRequirements
unfolding requirements
plan_requirements (formatted none format) = requirements format
plan_requirements (formatted (some payload_format) format) =
    join_requirements (requirements format) (requirements payload_format)
plan_requirements (envelope payload) = record { key = true; headers = true; timestamp = true }

unfoldable pub embeds_json : OutputPlan → Bool
embeds_json (formatted payload_format format) = false
embeds_json (envelope EnvelopePayload.string) = false
embeds_json (envelope EnvelopePayload.value) = true

pub record RuntimeConfig (engine : Engine) : Type 0 where
  pub topic : Bytes
  pub partitions : Option (List ℕ)
  pub start : StartPosition
  pub end : Option EndPosition
  pub count_limit : Option ℕ
  pub count_per_partition : Option ℕ
  pub exit_at_end : Bool
  pub consumers : ℕ
  pub range_sharding : Bool
  pub unordered : Bool
  pub limits : RuntimeLimits
  pub transform : TransformPlan engine
  pub output : OutputPlan
  pub errors : ErrorPolicies
  pub kafka_error : KafkaErrorPolicy
  pub kafka_properties : PropertyMap
  pub unbuffered : Bool
  pub stats : Bool
  -- In milliseconds.
  pub stats_interval : Option ℕ
  pub quiet : Bool
  pub check : Bool
