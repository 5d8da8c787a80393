-- ===== src/Embedding.antt =====
-- seekbase/embedders/api.py and seekbase/service/embedding_service.py: texts to vectors and tokens.
pub mod Api
pub mod Retries
pub mod Aligned
pub mod Records
