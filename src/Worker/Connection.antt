-- ===== src/Worker/Connection.antt =====
-- services/worker/src/consumer.py: its topics, and the clients that it makes.
use Prim.Native.String.{String, ◌++◌}
use workfront_system.Base.{true, false}
use workfront_system.Base.Kafka.{ConsumerConfig, ProducerConfig}
use workfront_system.Config.{Settings}

-- TOPIC and DLQ
abbrev pub worker_topic : Settings → String
worker_topic settings = settings.topic_schedule_changed

abbrev pub dead_letter_topic : Settings → String
dead_letter_topic settings = worker_topic settings ++ ".dlq"

-- _consumer
abbrev pub worker_consumer : Settings → ConsumerConfig
worker_consumer settings = record {
  bootstrap_servers = settings.kafka_brokers;
  group_id = "worker-fleet";
  enable_auto_commit = false;
  auto_offset_reset = "earliest";
  isolation_level = "read_committed";
}

-- _producer
abbrev pub dead_letter_producer : Settings → ProducerConfig
dead_letter_producer settings = record {
  bootstrap_servers = settings.kafka_brokers;
  enable_idempotence = true;
  acks = "all";
}
