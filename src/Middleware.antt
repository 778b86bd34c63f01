-- ===== src/Middleware.antt =====
-- The middleware of src/middleware.go that decides about requests or rewrites texts.
pub mod Redact
pub mod Input
pub mod Limits
pub mod Cors
pub mod Nonce
pub mod Injection
pub mod Policy
pub mod Redaction
pub mod Accepted
pub mod Passes
pub mod Origins
mod NonceExamples
mod Examples
