-- ===== src/Analyzers/Normalizer/Validity.antt =====
-- The normalizer's steps keep the state well formed.
