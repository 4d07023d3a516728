-- ===== src/Audit.antt =====
-- internal/application/audit: explanations, evaluation of a script, and the audit service.
pub mod Explain
pub mod Evaluate
