-- ===== src/Tests.antt =====
-- Concrete tables on which the theorems about src/kernel.c are applied.
pub mod Primes
pub mod Table
pub mod Witnesses
pub mod Clients
pub mod Parts
pub mod Starting
