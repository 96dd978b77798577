-- ===== src/Usage.antt =====
-- llm/models.py, `TokenUsage`: what a provider reports of one call.
use auto_scholar.Prelude.{Option}
use auto_scholar.Prelude.Int.{ℤ}

pub record TokenUsage : Type 0 where
  pub input_tokens : ℤ
  pub output_tokens : ℤ
  pub total_tokens : ℤ
  pub cached_input_tokens : Option ℤ
  pub uncached_input_tokens : Option ℤ
  pub reasoning_tokens : Option ℤ
