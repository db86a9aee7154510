-- ===== src/Ws/Connection.antt =====
-- services/ws_fanout/src/main.py: the topic of the bridge, and the consumer that it makes.
use Prim.Native.String.{String}
use workfront_system.Base.{false}
use workfront_system.Base.Kafka.{ConsumerConfig}
use workfront_system.Config.{Settings}

-- TOPIC
abbrev pub fanout_topic : Settings → String
fanout_topic settings = settings.topic_project_changed

abbrev pub fanout_consumer : Settings → ConsumerConfig
fanout_consumer settings = record {
  bootstrap_servers = settings.kafka_brokers;
  group_id = "ws-fanout";
  enable_auto_commit = false;
  auto_offset_reset = "latest";
  isolation_level = "read_committed";
}
