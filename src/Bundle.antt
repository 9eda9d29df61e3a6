-- ===== src/Bundle.antt =====
-- internal/bundle: signed bundles, from their documents to the installed versions.
pub mod Tokens
pub mod Library
pub mod Payload
pub mod Envelope
pub mod Disk
pub mod Lifecycle
pub mod Status
