-- ===== src/Config.antt =====
-- crates/config/src/model.rs: the parts of an accepted definition that policies are made of.
pub mod Raw
mod Examples
use Prim.Native.String.{String}
use susm.Common.{ℕ, List}
use susm.Domain.Time.{Duration}

pub record StopCommand : Type 0 where
  pub executable : String
  pub arguments : List String

pub data StopDefinition : Type 0 where
  ctrl_break : Duration → StopDefinition
  command : Duration → StopCommand → StopDefinition
  kill : StopDefinition

pub data RetentionLimit : Type 0 where
  limited : ℕ → RetentionLimit
  unlimited : RetentionLimit

pub data RetentionDuration : Type 0 where
  limited : Duration → RetentionDuration
  unlimited : RetentionDuration

-- The fields of `capture` are segment_size, segment_age, retention_size, retention_age.
pub data LoggingPolicy : Type 0 where
  disabled : LoggingPolicy
  capture : ℕ → Duration → RetentionLimit → RetentionDuration → LoggingPolicy
