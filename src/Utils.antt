-- ===== src/Utils.antt =====
-- utils: fake ids, and the publisher, the consumer and the queues on the message broker.
pub mod FakeId
pub mod Receive
pub mod Consumer
pub mod Queue
