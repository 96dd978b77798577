-- ===== src/Evaluation.antt =====
-- Evaluation (evaluation): the metrics by which runs of the program are compared.
pub mod Ranking
