-- ===== src/Adapters.antt =====
-- infrastructure/adapters: the HTTP clients of PaymentHub and of Aspin, over axios.
pub mod Http
pub mod PaymentHub
pub mod Aspin
