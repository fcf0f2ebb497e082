-- ===== src/Llm.antt =====
-- internal/infrastructure/service/llm: choosing among the providers of the language model.
pub mod Router
pub mod Effort
