-- ===== src/Pruebas.antt =====
-- Tests, and the theorems at concrete inputs, by component.
mod Memoria
mod Datos
mod Heap
mod Minify
mod Contexto
mod Cpu
mod Llamadas
mod Comunicacion
mod Kernel
mod Carga
mod Archivos
mod HeapProceso
