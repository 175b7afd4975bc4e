-- ===== src/Webhook.antt =====
-- The admission webhooks: internal/webhook/lightsoutschedule_validator.go and
-- lightsoutnamespaceschedule_validator.go.
pub mod Fields
pub mod Overlap
