-- ===== src/Testing.antt =====
-- src/adapters/mock: the test doubles of the library.
pub mod FakeContext
pub mod FakeTcti
pub mod MockProvider
pub mod Recorders
