-- ===== src/Cpu.antt =====
-- A CPU, src/cpu.
pub mod Posiciones
pub mod Variables
pub mod Contexto
pub mod Llamadas
pub mod Rafaga
pub mod Pedidos
