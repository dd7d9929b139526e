-- ===== src/Dpdk.antt =====
-- The rings and memory pools of DPDK, which are not in the repository: a parameter of the model.
pub mod Api
pub mod Laws
pub mod Listed
pub use Api.{Dpdk, Lawful}
