-- ===== src/Kernel/HeapProceso/Liberar.antt =====
-- The release of heap memory of a process, by liberarMemoriaHeap of src/kernel/heapmemo.c.
use tp_sisop_1c_2017_david.Prelude.{
  zero, suc, ◌%◌, ℕ, ◌+◌, ◌-◌, ◌*◌, ◌/◌, ◌<◌, ℤ, true, ltb, lt→ltb, ◌≡◌, refl, ap, [], ◌∷◌, Option,
  some, List, arith,
}
use native.Mathlib.Nat.{mod-lt}
use native.Mathlib.Omega.{div_any}
use tp_sisop_1c_2017_david.Kernel.Heap.{liberar_espacio}
use tp_sisop_1c_2017_david.Kernel.Planificacion.{Envio}
use tp_sisop_1c_2017_david.Kernel.HeapProceso.{
  ServidorHeap, respuesta_liberar, liberar_memoria_heap,
}

suc_por : (tam k : ℕ) → suc k * tam ≡ tam + k * tam
suc_por tam k = grind arith

por_suc : (tam k : ℕ) → tam * suc k ≡ tam + tam * k
por_suc tam k = grind arith

-- A quotient is the only one whose remainder is small.
unico : (tam q r k p : ℕ) → r < tam → p < tam → r + tam * q ≡ k * tam + p → q ≡ k
unico tam zero r zero p hr hp e = refl
unico tam zero r (suc k) p hr hp e = absurd (omega (arith, suc_por tam k))
unico tam (suc q) r zero p hr hp e = absurd (omega (arith, por_suc tam q))
unico tam (suc q) r (suc k) p hr hp e =
    ap suc (unico tam q r k p hr hp (omega (arith, suc_por tam k, por_suc tam q)))

cociente : (tam k p : ℕ) → p < tam → (k * tam + p) / tam ≡ k
cociente tam k p h =
    let division = div_any (k * tam + p) tam in
    unico tam ((k * tam + p) / tam) ((k * tam + p) % tam) k p (mod-lt (k * tam + p) (omega arith)) h
      (omega (arith, division))

resto : (tam k p : ℕ) → k * tam + p - tam * k ≡ p
resto tam k p = grind arith

-- What is saved and answered where the block is released on the page that holds the position.
pub liberar_memoria_heap_lem :
    {σ : Type 0} (memoria : ServidorHeap σ) (basura : ℕ → ℕ) (tam k p : ℕ) (m : σ) (pid sock : ℤ)
    (q : List ℕ)
    → p < tam
    → liberar_espacio basura tam (memoria.consultar m pid k) p ≡ some q
    → ◌≡◌ {A = Option (σ × List Envio)}
        (liberar_memoria_heap memoria tam basura m pid (k * tam + p) sock)
        (some (
          memoria.servidor.guardar m pid k q,
          respuesta_liberar (memoria.guardada m pid k q) sock ∷ [],
        ))
unfolding liberar_memoria_heap
liberar_memoria_heap_lem memoria basura tam k p m pid sock q menor e =
    let positivo : ltb 0 tam ≡ true = lt→ltb 0 tam (omega arith) in
    let division = cociente tam k p menor in
    rw (liberar_memoria_heap, division, resto tam k p, positivo, e) refl
