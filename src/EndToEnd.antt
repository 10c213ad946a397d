-- ===== src/EndToEnd.antt =====
-- The host's `EnclaveClient` and the enclave's `VsockRPCServer` together.
pub mod View
pub mod Exchange
