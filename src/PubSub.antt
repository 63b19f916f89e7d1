-- ===== src/PubSub.antt =====
-- stage1/04-pubsub/pubsub: messages to the subscribers of a topic.
pub mod Broker
