-- ===== src/Webhook.antt =====
-- internal/webhook: the delivery outbox, the subscriptions and the retry delay.
pub mod Store
pub mod Claims
pub mod Endpoints
pub mod Backoff
pub mod Recovery
pub mod Due
pub mod Run
