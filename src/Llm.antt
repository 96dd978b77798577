-- ===== src/Llm.antt =====
-- What providers of language models report of a call (llm/usage_parser.py), and what it costs
-- (llm/pricing.py).
pub mod Parser
pub mod Pricing
