-- ===== src/Kernel/HeapProceso.antt =====
-- The heap of a process over several pages, by reservarMemoriaHeap and liberarMemoriaHeap of
-- src/kernel/heapmemo.c. A page is consulted, changed and saved again. An outer `none` is a fault, or a
-- loop that has not ended.
pub mod Liberar
use tp_sisop_1c_2017_david.Prelude.{
  ℕ, zero, suc, ◌+◌, ◌-◌, ◌*◌, ◌/◌, ℤ, pos, negsuc, minus_one, Bool, true, false, ltb,
  if◌then◌else◌, Option, none, some, ◌>>=◌, ◌>>◌, guard, List, [], ◌∷◌, codes,
}
use tp_sisop_1c_2017_david.Comunicacion.Campos.{Campo, numero}
use tp_sisop_1c_2017_david.Kernel.Heap.{
  crear_pagina, is_pagina_valida, reservar_espacio_pagina, liberar_espacio,
}
use tp_sisop_1c_2017_david.Kernel.Planificacion.{Pcb, Envio}
use tp_sisop_1c_2017_david.Kernel.Carga.{Servidor, pedir_pagina_para_proceso}

-- The answers of the memory server to `pedirPaginaAMemoria`, and whether `guardarPaginaEnMemoria` got the one that
-- it expects.
pub record ServidorHeap (σ : Type 0) : Type 0 where
  pub servidor : Servidor σ
  pub consultar : σ → ℤ → ℕ → List ℕ
  pub guardada : σ → ℤ → ℕ → List ℕ → Bool

-- `KC_ALOCAR_RESPUESTA`, `KC_LIBERAR_RESPUESTA` and `KC_FINALIZO_PROGRAMA`
abbrev pub kc_alocar_respuesta : ℕ
kc_alocar_respuesta = 112

abbrev pub kc_liberar_respuesta : ℕ
kc_liberar_respuesta = 114

abbrev pub kc_finalizo : ℕ
kc_finalizo = 124

-- `_enviarMensajeACPU`
abbrev pub enviar_mensaje_a_cpu : ℕ → ℕ → ℤ → Envio
enviar_mensaje_a_cpu resultado posicion sock = record {
  sock = sock;
  tipo = if ltb 0 resultado then kc_alocar_respuesta else kc_finalizo;
  campos =
      (codes "resultado_respuesta", numero (pos resultado))
      ∷ (codes "posicion", numero (pos posicion))
      ∷ [];
}

abbrev pub respuesta_liberar : Bool → ℤ → Envio
respuesta_liberar guardada sock = record {
  sock = sock;
  tipo = kc_liberar_respuesta;
  campos = (codes "resultado_respuesta", numero (if guardada then pos 1 else minus_one)) ∷ [];
}

-- A page that was just granted.
pub pagina_nueva : ℕ → Option (List ℕ)
unfolding crear_pagina is_pagina_valida
pagina_nueva tam =
    crear_pagina tam >>= λ q. is_pagina_valida tam q >>= λ v. if v then some q else crear_pagina tam

module _ {σ : Type 0} (memoria : ServidorHeap σ) (tam : ℕ) where
  -- The page that the search looks at next: one of the heap, or a new one, if the server has one.
  pub otra_pagina : σ → Pcb → ℕ → Option ((σ × Pcb) × Option (List ℕ))
  unfolding pagina_nueva pedir_pagina_para_proceso
  otra_pagina m p k =
      let r = pedir_pagina_para_proceso memoria.servidor p m in
      if ltb k (p.primer_pagina_heap + p.cant_paginas_heap)
      then some ((m, p), some (memoria.consultar m p.pid k))
      else if ltb 0 r.1
      then (pagina_nueva tam >>= λ q. some (
        (
          r.0,
          record p {
            cant_paginas_heap = p.cant_paginas_heap + 1;
            paginas_pedidas = p.paginas_pedidas + 1;
          },
        ),
        some q,
      ))
      else some ((r.0, p), none)

  -- The loop of `reservarMemoriaHeap`, on fuel, from the page `k`: the page that the reservation changed, its
  -- number and the position in it, if it was granted.
  pub buscar_pagina : ℕ → ℕ → σ → Pcb → ℕ → List ℕ → Option ((σ × Pcb) × Option (List ℕ × (ℕ × ℕ)))
  unfolding otra_pagina reservar_espacio_pagina
  buscar_pagina zero espacio m p k pagina = none
  buscar_pagina (suc fuel) espacio m p k pagina =
      reservar_espacio_pagina tam pagina espacio >>= λ r. elim r.1 [
        | pos n ↦ some ((m, p), some (r.0, (k, n)))
        | negsuc e ↦ elim e [
          | zero ↦ some ((m, p), none)
          | suc _ ↦ otra_pagina m p (suc k) >>= λ o. elim o.1 [
            | none ↦ some (o.0, none)
            | some q ↦ buscar_pagina fuel espacio o.0.0 o.0.1 (suc k) q
          ]
        ]
      ]

  -- The first page: it makes the heap where there is none.
  pub primera_pagina : σ → Pcb → Option ((σ × Pcb) × Option (List ℕ))
  unfolding pagina_nueva pedir_pagina_para_proceso
  primera_pagina m p =
      let r = pedir_pagina_para_proceso memoria.servidor p m in
      if ltb 0 p.cant_paginas_heap
      then some ((m, p), some (memoria.consultar m p.pid p.primer_pagina_heap))
      else if ltb 0 r.1
      then (pagina_nueva tam >>= λ q. some (
        (
          r.0,
          record p {
            primer_pagina_heap = p.paginas_pedidas;
            cant_paginas_heap = p.cant_paginas_heap + 1;
            paginas_pedidas = p.paginas_pedidas + 1;
          },
        ),
        some q,
      ))
      else some ((r.0, p), none)

  -- `reservarMemoriaHeap`: false where it returns -1, and the messages that it sends. Where the first page is
  -- refused it sends none.
  abbrev pub responder_reserva :
      ℤ → (σ × Pcb) × Option (List ℕ × (ℕ × ℕ)) → (σ × Pcb) × (Bool × List Envio)
  responder_reserva sock (s, none) = (s, (false, enviar_mensaje_a_cpu 0 0 sock ∷ []))
  responder_reserva sock (s, some (q, (k, n))) = (
    (memoria.servidor.guardar s.0 s.1.pid k q, s.1),
    (true, enviar_mensaje_a_cpu 1 (k * tam + n) sock ∷ []),
  )

  unfoldable pub reservar_memoria_heap :
      ℕ → σ → Pcb → ℕ → ℤ → Option ((σ × Pcb) × (Bool × List Envio))
  unfolding primera_pagina buscar_pagina
  reservar_memoria_heap fuel m p espacio sock = primera_pagina m p >>= λ r. elim r.1 [
    | none ↦ some (r.0, (false, []))
    | some q ↦ buscar_pagina fuel espacio r.0.0 r.0.1 r.0.1.primer_pagina_heap q >>= λ o.
        some (responder_reserva sock o)
  ]

  -- `liberarMemoriaHeap`
  unfoldable pub liberar_memoria_heap : (ℕ → ℕ) → σ → ℤ → ℕ → ℤ → Option (σ × List Envio)
  liberar_memoria_heap basura m pid posicion sock =
      let k = posicion / tam in
      let ptr = posicion - tam * k in
      guard (ltb 0 tam)
      >> (liberar_espacio basura tam (memoria.consultar m pid k) ptr >>= λ q. some (
        memoria.servidor.guardar m pid k q,
        respuesta_liberar (memoria.guardada m pid k q) sock ∷ [],
      ))
