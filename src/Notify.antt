-- ===== src/Notify.antt =====
-- internal/notify: the envelope, the registry of notifier types, the dispatcher of
-- deliveries, the signature of a body and the webhook.
pub mod Envelope
pub mod Registry
pub mod Dispatcher
pub mod Signing
pub mod Webhook
