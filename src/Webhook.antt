-- ===== src/Webhook.antt =====
-- The delivery of updates to a webhook: telegram-bot-api/WebhookActor.cpp and WebhookActor.h.
pub mod Queue
pub mod Delivery
pub mod Actor
pub mod Connections
