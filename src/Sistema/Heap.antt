-- ===== src/Sistema/Heap.antt =====
-- The release of heap memory of a process, by liberarMemoriaHeap of src/kernel/heapmemo.c, with the pages that
-- src/memoria/memoria.c holds.
use tp_sisop_1c_2017_david.Prelude.{
  ℕ, ◌+◌, ◌*◌, ◌<◌, ℤ, pos, true, ◌≡◌, ◌≢◌, refl, sym, ap, subst, ◌∙◌, Option, some, ◌>>=◌, List,
  [], ◌∷◌, length, take, inl, inr, Commons, arith,
}
use tp_sisop_1c_2017_david.Memoria.Estado.{Memoria}
use tp_sisop_1c_2017_david.Memoria.Paginas.{bloque}
use tp_sisop_1c_2017_david.Memoria.Paginas.Invariante.{IsValid, ubicar}
use tp_sisop_1c_2017_david.Memoria.Paginas.Guardar.{
  contenido, Guardada, guardar_pagina_lem, consultar_pagina_lem,
}
use tp_sisop_1c_2017_david.Kernel.Heap.Bloques.{Bloque, Asignado}
use tp_sisop_1c_2017_david.Kernel.Heap.Compactar.{Limpia}
use tp_sisop_1c_2017_david.Kernel.Heap.Cadena.{EsHeap}
use tp_sisop_1c_2017_david.Kernel.Heap.Liberar.{liberar_espacio_lem, Liberada}
use tp_sisop_1c_2017_david.Kernel.Planificacion.{Envio}
use tp_sisop_1c_2017_david.Kernel.HeapProceso.{respuesta_liberar, liberar_memoria_heap}
use tp_sisop_1c_2017_david.Kernel.HeapProceso.Liberar.{liberar_memoria_heap_lem}
use tp_sisop_1c_2017_david.Sistema.{
  atender_guardar, atender_consulta, pagina_leida, bytes_leidos, responde, hilo_kernel_heap,
}

-- A page that a frame holds is read from the block of that frame.
pub consulta_en :
    {s : Memoria} (pid : ℤ) (k : ℕ) {i : ℕ}
    → IsValid s
    → ubicar s pid (pos k) ≡ some i
    → atender_consulta (some s) pid k ≡ bytes_leidos (contenido s i)
consulta_en {s} pid k v e =
    ap (pagina_leida s) (consultar_pagina_lem pid (pos k) v ∙ ap (λ o. some (bloque o)) e)

-- What a page saved in a frame whose block lies inside the allocation leaves.
pub record Escrita (s : Memoria) (pid : ℤ) (k i : ℕ) (pagina : List ℕ) : Type 0 where
  pub memoria : Memoria
  pub guardada : atender_guardar (some s) pid k pagina ≡ some memoria
  pub efecto : Guardada s i pagina memoria

pub guardar-Escrita :
    {s : Memoria} (pid : ℤ) (k i : ℕ) (pagina : List ℕ)
    → IsValid s
    → 0 < s.marco_size
    → length pagina ≡ s.marco_size
    → ubicar s pid (pos k) ≡ some i
    → i + s.bloques_adm < s.marcos
    → Escrita s pid k i pagina
guardar-Escrita {s} pid k i pagina v h largo e dentro =
    elim (guardar_pagina_lem pid (pos k) pagina v h (omega (arith, largo))) [
      | inl (n, _) ↦ cc
      | inr (j, donde, caso) ↦
          let mismo : j ≡ i = cc in
          elim caso [
            | inl (_, (s', g, efecto)) ↦ record {
              memoria = s';
              guardada = ap (λ o. o >>= λ r. some r.0) g;
              efecto = subst (λ m. Guardada s m pagina s') mismo efecto;
            }
            | inr (fuera, _) ↦ absurd (omega (arith, mismo, fuera))
          ]
    ]

-- A write of the bytes moves no page.
pub Guardada-ubicar :
    {s : Memoria} (q : ℤ) (j i : ℕ) (pagina : List ℕ) {s' : Memoria}
    → Guardada s i pagina s'
    → ubicar s' q (pos j) ≡ ubicar s q (pos j)
Guardada-ubicar q j i pagina g = ap (λ t. ubicar t q (pos j)) g.resto

pub consulta-escrita :
    {s : Memoria} (pid : ℤ) (k i : ℕ) (pagina : List ℕ) {s' : Memoria}
    → length pagina ≡ s.marco_size
    → ubicar s pid (pos k) ≡ some i
    → Guardada s i pagina s'
    → atender_consulta (some s') pid k ≡ pagina
consulta-escrita {s} pid k i pagina largo e g =
    consulta_en pid k g.valida (Guardada-ubicar pid k i pagina g ∙ e)
    ∙ ap bytes_leidos g.escrita
    ∙ ap (λ n. take n pagina) (sym largo)
    ∙ take-todo pagina
  where
    take-todo : (b : List ℕ) → take (length b) b ≡ b
    take-todo [] = refl
    take-todo (x ∷ b) = ap (λ l. x ∷ l) (take-todo b)

pub consulta-otra :
    {s : Memoria} (q : ℤ) (j i i' : ℕ) (pagina : List ℕ) {s' : Memoria}
    → IsValid s
    → ubicar s q (pos j) ≡ some i'
    → i' ≢ i
    → Guardada s i pagina s'
    → atender_consulta (some s') q j ≡ atender_consulta (some s) q j
consulta-otra q j i i' pagina v e otra g =
    consulta_en q j g.valida (Guardada-ubicar q j i pagina g ∙ e)
    ∙ ap bytes_leidos (g.otros i' otra)
    ∙ sym (consulta_en q j v e)

module _ ⦃commons : Commons ℤ⦄ where
  -- The release of a block in use of a heap page of at most 260 bytes, where malloc gives zeroed bytes, the memory
  -- server is in a valid state and the block of the page's frame lies inside the allocation of the memory server:
  -- the CPU is answered with success, the page that holds the position then has the block free and its free
  -- neighbours joined, with the other blocks in use as they were, and a page in another frame, of whatever
  -- process, is read as before. The state stays valid.
  pub liberar_memoria_heap-hilo :
      (s : Memoria) (basura : ℕ → ℕ) (k p n i : ℕ) (pid sock : ℤ) (bs : List Bloque) (q : ℤ)
      (j i' : ℕ)
      → IsValid s
      → ubicar s pid (pos k) ≡ some i
      → i + s.bloques_adm < s.marcos
      → Limpia basura
      → s.marco_size < 261
      → EsHeap s.marco_size (atender_consulta (some s) pid k) bs
      → Asignado p n 0 bs
      → p < s.marco_size
      → ubicar s q (pos j) ≡ some i'
      → i' ≢ i
      → (s' : Memoria) × (◌≡◌ {A = Option (Option Memoria × List Envio)}
          (liberar_memoria_heap hilo_kernel_heap s.marco_size basura
            (some s)
            pid
            (k * s.marco_size + p)
            sock)
          (some (some s', respuesta_liberar true sock ∷ [])))
        × Liberada s.marco_size p
            (atender_consulta (some s) pid k)
            bs
            (atender_consulta (some s') pid k)
        × (atender_consulta (some s') q j ≡ atender_consulta (some s) q j)
        × IsValid s'
  liberar_memoria_heap-hilo s basura k p n i pid sock bs q j i' v e dentro limpia chica h a menor e'
        otra =
      let b = atender_consulta (some s) pid k in
      let l = liberar_espacio_lem basura s.marco_size p n b bs limpia chica h a in
      let largo = l.2.heap.largo in
      let salida : Option Memoria → Option (Option Memoria × List Envio) =
        λ o. some (o, respuesta_liberar (responde o) sock ∷ []) in
      let w = guardar-Escrita pid k i l.0 v (omega arith) largo e dentro in
      (
        w.memoria,
        liberar_memoria_heap_lem hilo_kernel_heap basura s.marco_size k p (some s) pid sock l.0
              menor l.1
            ∙ ap salida w.guardada,
        subst (λ t. Liberada s.marco_size p b bs t)
            (sym (consulta-escrita pid k i l.0 largo e w.efecto)) l.2,
        consulta-otra q j i i' l.0 v e' otra w.efecto,
        w.efecto.valida,
      )
