-- ===== src/Mqtt.antt =====
-- What arrives over MQTT (apps/core/src/zigbeelens/mqtt): redaction of payloads, and topics.
pub mod Payload
pub mod Redaction
pub mod Topics
pub mod Normalizer
mod Examples
