-- ===== src/Pruebas/HeapProceso.antt =====
-- The heap of a process of src/kernel/heapmemo.c with the memory server of the program, and with one of
-- pages of 64 bytes.
use tp_sisop_1c_2017_david.Prelude.{
  ℕ, ◌+◌, ◌*◌, subst, sym, pos, true, ◌==◌, if◌then◌else◌, ◌≡◌, refl, Option, some, List, [], ◌∷◌,
  ◌++◌, replicate, inl, ◌>>=◌, bytes_de_palabra, palabra_de_bytes, leer_bytes, escribir_bytes,
  arith,
}
use tp_sisop_1c_2017_david.Kernel.Heap.Bloques.{libre, usado}
use tp_sisop_1c_2017_david.Kernel.Heap.Cadena.{EsHeap, cabecera}
use tp_sisop_1c_2017_david.Kernel.Heap.Liberar.{Liberada}
use tp_sisop_1c_2017_david.Kernel.Planificacion.{Pcb, Envio, pcb_nulo}
use tp_sisop_1c_2017_david.Kernel.HeapProceso.{
  ServidorHeap, enviar_mensaje_a_cpu, respuesta_liberar, reservar_memoria_heap,
  liberar_memoria_heap,
}
use tp_sisop_1c_2017_david.Memoria.Estado.{Memoria}
use tp_sisop_1c_2017_david.Memoria.Marco.{buscar_desde}
use tp_sisop_1c_2017_david.Memoria.Paginas.{reservar_pagina}
use tp_sisop_1c_2017_david.Memoria.Paginas.Invariante.{IsValid}
use tp_sisop_1c_2017_david.Sistema.{atender_consulta, hilo_kernel_heap}
use tp_sisop_1c_2017_david.Sistema.Heap.{consulta_en, liberar_memoria_heap-hilo}
use tp_sisop_1c_2017_david.Pruebas.Memoria.{listas, con_dos, con_dos-Coherente, donde_0, donde_1}

abbrev Hojas : Type 0
Hojas = ℕ → List ℕ

abbrev memoria : ServidorHeap Hojas
memoria = record {
  servidor = record {
    reservar = λ m pid k. (m, (true, (pos 0, 64)));
    guardar = λ m pid k b. λ j. if j == k then b else m j;
  };
  consultar = λ m pid k. m k;
  guardada = λ m pid k b. true;
}

-- A page of the memory server, with 20 bytes in use.
abbrev pagina : List ℕ
pagina = cabecera (usado 20) ++ (replicate 20 7 ++ (cabecera (libre 10) ++ replicate 10 0))

-- The page is page 0 of process 1, in the first of its two frames.
abbrev con_heap : Memoria
con_heap = record con_dos { bytes = replicate 160 0 ++ (pagina ++ replicate 40 3) }

con_heap-IsValid : IsValid con_heap
unfolding buscar_desde reservar_pagina bytes_de_palabra
con_heap-IsValid =
    let v = con_dos-Coherente.valida in
    record {
      size = v.size;
      lugar = v.lugar;
      area = refl;
      adm = v.adm;
      ocupados = v.ocupados;
      numerados = v.numerados;
      unicas = v.unicas;
    }

pagina_del_heap : atender_consulta (some con_heap) (pos 1) 0 ≡ pagina
unfolding leer_bytes bytes_de_palabra buscar_desde reservar_pagina
pagina_del_heap = consulta_en (pos 1) 0 con_heap-IsValid donde_0

pagina-EsHeap : EsHeap 40 pagina (usado 20 ∷ libre 10 ∷ [])
unfolding leer_bytes bytes_de_palabra
pagina-EsHeap = record {
  cadena = (
    record { leida = refl; alcanza = omega arith },
    (record { leida = refl; alcanza = omega arith }, refl),
  );
  largo = refl;
  cabe = omega arith;
}

liberar_memoria_heap-hilo_example :
    (s' : Memoria) × (◌≡◌ {A = Option (Option Memoria × List Envio)}
      (liberar_memoria_heap hilo_kernel_heap 40
        (λ p. 0)
        (some con_heap)
        (pos 1)
        (0 * 40 + 5)
        (pos 7))
      (some (some s', respuesta_liberar true (pos 7) ∷ [])))
    × Liberada 40 5
        (atender_consulta (some con_heap) (pos 1) 0)
        (usado 20 ∷ libre 10 ∷ [])
        (atender_consulta (some s') (pos 1) 0)
    × (atender_consulta (some s') (pos 1) 1 ≡ atender_consulta (some con_heap) (pos 1) 1)
    × IsValid s'
unfolding buscar_desde reservar_pagina
liberar_memoria_heap-hilo_example =
    liberar_memoria_heap-hilo con_heap (λ p. 0) 0 5 20 4 (pos 1) (pos 7) (usado 20 ∷ libre 10 ∷ [])
      (pos 1) 1 5 con_heap-IsValid donde_0 (omega arith) (λ p. omega arith) (omega arith)
      (subst (λ b. EsHeap 40 b (usado 20 ∷ libre 10 ∷ [])) (sym pagina_del_heap) pagina-EsHeap)
      (inl (refl, refl)) (omega arith) donde_1 (omega arith)

-- A process with no heap asks for 10 bytes twice: both come from the first page of its heap, the page 2.
abbrev proceso : Pcb
proceso = record (pcb_nulo (pos 1)) { paginas_pedidas = 2 }

primera_reserva :
    (reservar_memoria_heap memoria 64 3 (λ k. []) proceso 10 (pos 7) >>= λ r. some r.1.1)
    ≡ some (enviar_mensaje_a_cpu 1 133 (pos 7) ∷ [])
unfolding reservar_memoria_heap leer_bytes bytes_de_palabra palabra_de_bytes escribir_bytes
primera_reserva = refl

segunda_reserva :
    (reservar_memoria_heap memoria 64 3 (λ k. []) proceso 10 (pos 7) >>= λ r.
    reservar_memoria_heap memoria 64 3 r.0.0 r.0.1 10 (pos 7) >>= λ t. some t.1.1)
    ≡ some (enviar_mensaje_a_cpu 1 148 (pos 7) ∷ [])
unfolding reservar_memoria_heap leer_bytes bytes_de_palabra palabra_de_bytes escribir_bytes
segunda_reserva = refl
