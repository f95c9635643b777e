-- ===== src/Kernel/Carga.antt =====
-- The loading of a script into the memory server, from src/kernel/kernel.c.
pub mod Paginas
pub mod Lleno
use tp_sisop_1c_2017_david.Prelude.{
  ℕ, zero, suc, ◌+◌, ◌-◌, ℤ, pos, eqb_ℤ, Bool, true, false, ltb, if◌then◌else◌, Option, none, some,
  ◌>>=◌, List, [], ◌∷◌, ◌++◌, length, take, drop, replicate,
}
use tp_sisop_1c_2017_david.Kernel.Minify.{get_cadena_contatenada}
use tp_sisop_1c_2017_david.Kernel.Planificacion.{Pcb}

-- The answers of the memory server to the kernel: whether the message is a `MK_RESERVA_PAGINA_RESPUESTA`, with its
-- `resultadoReserva` and `size`, and the state after a `KM_GUARDAR_PAGINA`.
pub record Servidor (σ : Type 0) : Type 0 where
  pub reservar : σ → ℤ → ℕ → σ × (Bool × (ℤ × ℕ))
  pub guardar : σ → ℤ → ℕ → List ℕ → σ

-- The part of a buffer that the loop sends: `size` bytes, of which the script has the first ones.
abbrev pub pagina_de : ℕ → List ℕ → ℕ → List ℕ
pagina_de size script offset =
    let resta = length script - offset in
    let largo = if ltb resta size then resta else size in
    take largo (drop offset script) ++ replicate (size - largo) 0

module _ {σ : Type 0} (servidor : Servidor σ) where
  -- `pedirPaginaParaProceso`
  unfoldable pub pedir_pagina_para_proceso : Pcb → σ → σ × ℕ
  pedir_pagina_para_proceso p m =
      let r = servidor.reservar m p.pid p.paginas_pedidas in
      (r.0, if r.1.0 then (if eqb_ℤ r.1.1.0 (pos 0) then r.1.1.1 else 0) else 0)

  -- `guardarPaginaProceso`
  abbrev pub guardar_pagina_proceso : Pcb → List ℕ → σ → σ
  guardar_pagina_proceso p buffer m = servidor.guardar m p.pid p.paginas_pedidas buffer

  -- One round of the loop over the script: the state, the PCB and the next offset.
  abbrev pub tras_pedido : List ℕ → ℕ → Pcb → σ × ℕ → (σ × Pcb) × ℕ
  tras_pedido script offset p (m, size) =
      let p' = record p { tam_pagina = size } in
      (
        (
          guardar_pagina_proceso p' (pagina_de size script offset) m,
          record p' { paginas_pedidas = p'.paginas_pedidas + 1 },
        ),
        offset + size,
      )

  unfoldable pub cargar_pagina : List ℕ → ℕ → σ → Pcb → (σ × Pcb) × ℕ
  unfolding pedir_pagina_para_proceso
  cargar_pagina script offset m p = tras_pedido script offset p (pedir_pagina_para_proceso p m)

  -- The loop, on fuel. `script` has the 0 at its end.
  unfoldable pub cargar_paginas : ℕ → List ℕ → ℕ → σ → Pcb → Option (σ × Pcb)
  unfolding cargar_pagina
  cargar_paginas zero script offset m p = none
  cargar_paginas (suc fuel) script offset m p =
      let r = cargar_pagina script offset m p in
      let resto = cargar_paginas fuel script r.1 r.0.0 r.0.1 in
      if ltb offset (length script) then resto else some (m, p)

  -- What follows the loop: a page for the stack.
  abbrev pub stack_en : Pcb → σ × ℕ → σ × Pcb
  stack_en p (m, size) = (
    guardar_pagina_proceso p (replicate size 0) m,
    record p {
      stack_pagina = p.paginas_pedidas;
      stack_level = 0;
      stack_offset = 0;
      stack_size = 0;
      paginas_pedidas = p.paginas_pedidas + 1;
      primer_pagina_heap = p.paginas_pedidas + 1;
    },
  )

  unfoldable pub cargar_stack : σ → Pcb → σ × Pcb
  unfolding pedir_pagina_para_proceso
  cargar_stack m p = stack_en p (pedir_pagina_para_proceso p m)

  -- `reservarMemoriaParaProceso`
  unfoldable pub reservar_memoria_para_proceso : ℕ → σ → Pcb → Option (σ × Pcb)
  unfolding cargar_paginas cargar_stack
  reservar_memoria_para_proceso fuel m p = get_cadena_contatenada p.script >>= λ s.
      cargar_paginas fuel (s ++ (0 ∷ [])) 0 m p >>= λ r. some (cargar_stack r.0 r.1)
