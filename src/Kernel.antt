-- ===== src/Kernel.antt =====
-- The kernel, src/kernel.
pub mod Heap
pub mod Minify
pub mod Contexto
pub mod Planificacion
pub mod Semaforos
pub mod Estado
pub mod Eventos
pub mod Carga
pub mod Archivos
pub mod HeapProceso
