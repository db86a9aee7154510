-- ===== src/Base/Kafka.antt =====
-- What the services hand to a Kafka client when they make one.
use Prim.Native.String.{String}
use mathlib.Core.Bool.{Bool}

pub record ConsumerConfig : Type 0 where
  pub bootstrap_servers : String
  pub group_id : String
  pub enable_auto_commit : Bool
  pub auto_offset_reset : String
  pub isolation_level : String

pub record ProducerConfig : Type 0 where
  pub bootstrap_servers : String
  pub enable_idempotence : Bool
  pub acks : String
