-- ===== src/Vision.antt =====
-- agent/vision: what is observed of the screen, what of it is passed on, and what it suggests.
pub mod PrivacyFilter
pub mod OcrPipeline
pub mod Monitor
pub mod Suggestions
pub mod ContextAssistant
