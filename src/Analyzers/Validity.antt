-- ===== src/Analyzers/Validity.antt =====
-- The analyzers change the state through its operations only, so they keep it well formed.
use not_dec_bin2llvm.OrderedMap
