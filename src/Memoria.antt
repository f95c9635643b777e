-- ===== src/Memoria.antt =====
-- The memory server, src/memoria/memoria.c: frames and inverted page table, cache, page operations,
-- reads and writes of data, and the message loops.
pub mod Marco
pub mod Cache
pub mod Estado
pub mod Paginas
pub mod Datos
