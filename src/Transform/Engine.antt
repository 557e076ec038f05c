-- ===== src/Transform/Engine.antt =====
-- The JSONata engine `jx`, which the repository does not contain, as src/transform uses it: it
-- compiles expressions, parses a payload for a list of them, evaluates the expression at an index
-- and writes JSON into a buffer, whatever was written before a failure included.
use jkq.Prelude.{Bytes, Result, ℕ, Bool, Option, List}
use jkq.Records.{Buffer}

pub record Engine : Type 1 where
  pub Expression : Type 0
  pub Input : Type 0
  pub Value : Type 0
  -- `OwnedValue::from_json` and the type of its value.
  pub parse_variables : Bytes → Result Bytes Value
  pub is_object : Value → Bool
  -- With the value of `$vars`, if there is one.
  pub compile : Option Value → Bytes → Result Bytes Expression
  pub prepare : List Expression → Bytes → Result Bytes Input
  -- `evaluate` followed by `Evaluation::single`.
  pub evaluate : Input → ℕ → Result Bytes (Option Value)
  pub as_bool : Value → Option Bool
  -- Whether the expression gave a result.
  pub write_json : Input → ℕ → Buffer → Buffer × Result Bytes Bool
  pub write_compact : Input → Buffer → Buffer × Result Bytes (Unit {0})
