-- ===== src/Provider.antt =====
-- The model provider: agent/providers/OpenAIToolLoop.ts and agent/providers/ModelPricing.ts.
pub mod Pricing
pub mod Messages
pub mod Exchange
pub mod ToolLoop
