-- ===== src/Memoria/Paginas.antt =====
-- The page operations that the kernel asks of src/memoria/memoria.c. A page that is not there is `none`
-- where the code has -1; an outer `none` is a fault, an access outside the allocation.
pub mod Invariante
pub mod Reservar
pub mod Inicio
pub mod Liberar
pub mod Finalizar
pub mod Guardar
use tp_sisop_1c_2017_david.Prelude.{
  ℕ, zero, suc, ◌+◌, ◌*◌, ℤ, pos, negsuc, minus_one, eqb_ℤ, suc_ℤ, pred_ℤ, Bool, true, false, ltb,
  leb, ◌==◌, if◌then◌else◌, Option, none, some, ◌>>=◌, ◌>>◌, guard, List, [], ◌∷◌, length, set,
  drop, get_or, take, escribir_bytes, Commons,
}
use tp_sisop_1c_2017_david.Memoria.Marco.{
  Marco, marco_libre, es_pagina, es_libre, es_del_pid, buscar_desde, contar,
}
use tp_sisop_1c_2017_david.Memoria.Cache.{cache_activada, eliminar_proceso_en_cache}
use tp_sisop_1c_2017_david.Memoria.Estado.{Memoria}

-- `EXIT_SUCCESS` and `EXIT_FAILURE`
abbrev pub exit_success : ℕ
exit_success = 0

abbrev pub exit_failure : ℕ
exit_failure = 1

-- `funcionHash`
abbrev pub funcion_hash : Memoria → ℤ → ℤ → ℕ
funcion_hash s pid num_pag = s.bloques_adm

-- `verificarPosHash`, which reads the entry at `i` before it compares `i` with the table's size.
pub verificar_pos_hash : Memoria → ℤ → ℤ → ℕ → Option (Option ℕ)
verificar_pos_hash s pid num_pag i =
    if ltb i (length s.tabla)
    then some (buscar_desde (es_pagina pid num_pag) i (drop i s.tabla))
    else none

-- `buscarPaginaLibre`
unfoldable pub buscar_pagina_libre : Memoria → Option ℕ
buscar_pagina_libre s = buscar_desde es_libre 0 s.tabla

-- An entry of the table written by its `pid` and `pag`; `frame` stays.
abbrev pub ocupar : List Marco → ℕ → ℤ → ℤ → List Marco
ocupar tabla i pid num_pag =
    set tabla i
      (record { pid = pid; pag = num_pag; frame = (get_or tabla i (marco_libre 0)).frame })

module _ ⦃commons : Commons ℤ⦄ where
  -- `actualizarListaDeProcesos`
  pub actualizar_lista_de_procesos : List ℤ → ℤ → List ℤ
  actualizar_lista_de_procesos activos pid = elim (commons.list_find activos (λ p. eqb_ℤ p pid)) [
    | none ↦ commons.list_add activos pid
    | some p ↦ activos
  ]

  -- `reservarPagina`
  unfoldable pub reservar_pagina : Memoria → ℤ → ℤ → Memoria × ℕ
  unfolding buscar_pagina_libre
  reservar_pagina s pid num_pag = elim (buscar_pagina_libre s) [
    | none ↦ (s, exit_failure)
    | some i ↦ (
      record s {
        tabla = ocupar s.tabla i pid num_pag;
        frames_ocupados = suc_ℤ s.frames_ocupados;
        proc_activos = actualizar_lista_de_procesos s.proc_activos pid;
      },
      exit_success,
    )
  ]

-- `escribirEnBloque`: `marco_size` bytes are copied out of the page that came with the message.
pub escribir_en_bloque : Memoria → ℕ → List ℕ → Option Memoria
escribir_en_bloque s i pagina = do
  guard (leb s.marco_size (length pagina))
  bytes ← escribir_bytes (i * s.marco_size) (take s.marco_size pagina) s.bytes
  some (record s { bytes = bytes })

-- `guardarPagina`
pub guardar_pagina : Memoria → ℤ → ℤ → List ℕ → Option (Memoria × ℕ)
unfolding verificar_pos_hash escribir_en_bloque
guardar_pagina s pid num_pag pagina =
    verificar_pos_hash s pid num_pag (funcion_hash s pid num_pag) >>= λ o. elim o [
      | none ↦ some (s, exit_failure)
      | some i ↦ escribir_en_bloque s i pagina >>= λ s'. some (s', exit_success)
    ]

-- `liberarPagina`
pub liberar_pagina : Memoria → ℤ → ℤ → Option (Memoria × ℕ)
unfolding verificar_pos_hash
liberar_pagina s pid num_pag =
    verificar_pos_hash s pid num_pag (funcion_hash s pid num_pag) >>= λ o. elim o [
      | none ↦ some (s, exit_failure)
      | some i ↦ some (
        record s {
          tabla = ocupar s.tabla i minus_one minus_one;
          frames_ocupados = pred_ℤ s.frames_ocupados;
        },
        exit_success,
      )
    ]

-- The frame number that `irABloqueMemoria` is handed; the address is `marco_size` times it, from
-- `inicioMemoriaProcesos` on.
abbrev pub bloque : Option ℕ → ℤ
bloque none = minus_one
bloque (some i) = pos i

-- `consultarPagina`: it goes to the block without a look at whether the page was found.
pub consultar_pagina : Memoria → ℤ → ℤ → Option ℤ
unfolding verificar_pos_hash
consultar_pagina s pid num_pag =
    verificar_pos_hash s pid num_pag (funcion_hash s pid num_pag) >>= λ o. some (bloque o)

-- The loop of `eliminarProcesoEnMemoria`: it frees pages 0, 1, … until one is not there. On fuel:
-- `none` is also the fuel run out.
pub eliminar_desde : ℕ → Memoria → ℤ → ℕ → Option Memoria
eliminar_desde zero s pid num_pag = none
eliminar_desde (suc fuel) s pid num_pag = liberar_pagina s pid (pos num_pag) >>= λ r.
    elim (r.1 == exit_success) [
      | true ↦ eliminar_desde fuel r.0 pid (num_pag + 1)
      | false ↦ some r.0
    ]

pub eliminar_proceso_en_memoria : Memoria → ℤ → Option Memoria
unfolding eliminar_desde
eliminar_proceso_en_memoria s pid = eliminar_desde (length s.tabla + 1) s pid 0

module _ ⦃commons : Commons ℤ⦄ where
  -- `eliminarProcesoDeActivos`
  pub eliminar_proceso_de_activos : List ℤ → ℤ → List ℤ
  eliminar_proceso_de_activos activos pid =
      commons.list_remove_by_condition activos (λ p. eqb_ℤ p pid)

  -- `finalizarProceso`
  pub finalizar_proceso : Memoria → ℤ → Option (Memoria × ℕ)
  finalizar_proceso s pid = do
    let cache = if cache_activada s.cache then eliminar_proceso_en_cache pid s.cache else s.cache
    let activos = eliminar_proceso_de_activos s.proc_activos pid
    s' ← eliminar_proceso_en_memoria (record s { cache = cache; proc_activos = activos }) pid
    some (s', exit_success)

-- `calcularSizePID`
unfoldable pub calcular_size_pid : Memoria → ℤ → ℕ
calcular_size_pid s pid = contar (es_del_pid pid) (drop s.bloques_adm s.tabla)
