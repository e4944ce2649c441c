-- ===== src/Domain.antt =====
-- include/tpmkit/hash_algorithm.h, include/tpmkit/pcr/ and src/domain/: the value types.
pub mod Hash
pub mod Index
pub mod Values
