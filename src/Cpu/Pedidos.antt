-- ===== src/Cpu/Pedidos.antt =====
-- The primitives of src/cpu/cpu.c that ask the kernel for an operation and give the CPU up: abrir, leer, escribir,
-- cerrar, borrar, moverCursor and wait, with the writes to the memory server. `none` is a fault.
pub mod Respuestas
use tp_sisop_1c_2017_david.Prelude.{
  ℕ, suc, ◌+◌, ◌-◌, ◌%◌, ◌^◌, ◌==◌, ltb, leb, ℤ, pos, palabra, Bool, true, false, if◌then◌else◌,
  replicate, Option, none, some, ◌>>=◌, List, [], ◌∷◌, ◌++◌, length, codes,
}
use tp_sisop_1c_2017_david.Comunicacion.{Mensaje}
use tp_sisop_1c_2017_david.Comunicacion.Campos.{Campo, numero, texto}
use tp_sisop_1c_2017_david.Comunicacion.Secuencias.{sin_signo}
use tp_sisop_1c_2017_david.Cpu.Posiciones.{Posicion, puntero_convertir_a_posicion}
use tp_sisop_1c_2017_david.Cpu.Contexto.{PcbActivo}
use tp_sisop_1c_2017_david.Cpu.Llamadas.{
  Ejecucion, responder_al_kernel, con_estado, ck_finalizo_con_error,
}

-- `CK_PIDIO_ABRIR_ARCHIVO` and the like, and `MC_GUARDAR_RESPUESTA`
abbrev pub ck_pidio_abrir_archivo : ℕ
ck_pidio_abrir_archivo = 103

abbrev pub ck_pidio_mover_cursor : ℕ
ck_pidio_mover_cursor = 104

abbrev pub ck_pidio_leer_archivo : ℕ
ck_pidio_leer_archivo = 105

abbrev pub ck_pidio_escribir_archivo : ℕ
ck_pidio_escribir_archivo = 106

abbrev pub ck_pidio_cerrar_archivo : ℕ
ck_pidio_cerrar_archivo = 107

abbrev pub ck_pidio_borrar_archivo : ℕ
ck_pidio_borrar_archivo = 108

abbrev pub ck_wait : ℕ
ck_wait = 115

abbrev pub mc_guardar_respuesta : ℕ
mc_guardar_respuesta = 203

abbrev pub con_activo : PcbActivo → Ejecucion → Ejecucion
con_activo p e = record e { pcb = p }

-- What the requests share at their end, with the flag of the process and `voyAEntradaSalida`.
abbrev pub pedir : ℕ → Ejecucion → Ejecucion
pedir tipo e =
    responder_al_kernel tipo
      (record (con_activo (record e.pcb { estado_en_cpu = tipo; volvio_entrada_salida = 1 }) e) {
        voy_a_entrada_salida = true;
      })

abbrev pub no_volvio : Ejecucion → Ejecucion
no_volvio e = con_activo (record e.pcb { volvio_entrada_salida = 0 }) e

abbrev pub de_vuelta : Ejecucion → Ejecucion
de_vuelta e = no_volvio (record e { voy_a_entrada_salida = false })

abbrev pub primera_vez : Ejecucion → Bool
primera_vez e = e.pcb.volvio_entrada_salida == 0

-- `abrir`, with the flags for writing, creation and reading; the descriptor that it returns the first time is
-- one that was never set, which is left out.
unfoldable pub abrir : List ℕ → ℕ → ℕ → ℕ → Ejecucion → Option Ejecucion
abrir direccion escritura creacion lectura e =
    if primera_vez e
    then (if ltb (length direccion) 100
        then some (
            no_volvio (
              pedir ck_pidio_abrir_archivo (
                con_activo
                  (record e.pcb {
                    direccion = direccion;
                    escritura = escritura;
                    creacion = creacion;
                    lectura = lectura;
                  })
                  e)))
        else none)
    else some (de_vuelta e)

-- `cerrar` and `borrar`
unfoldable pub cerrar : ℕ → Ejecucion → Ejecucion
cerrar descriptor e =
    if primera_vez e
    then no_volvio
        (pedir ck_pidio_cerrar_archivo (con_activo (record e.pcb { descriptor = descriptor }) e))
    else de_vuelta e

unfoldable pub borrar : ℕ → Ejecucion → Ejecucion
borrar descriptor e =
    if primera_vez e
    then no_volvio
        (pedir ck_pidio_borrar_archivo (con_activo (record e.pcb { descriptor = descriptor }) e))
    else de_vuelta e

-- `escribir`, where a 10 in `construccion` says that the text was put together by `dereferenciar`
unfoldable pub escribir : ℕ → List ℕ → Ejecucion → Ejecucion
escribir desc informacion e =
    let informado = if e.construccion == 10 then e.pcb.informacion_escribir else informacion in
    let p = record e.pcb {
      informacion_escribir = informado;
      descriptor = desc;
      tam_a_escribir = (length informado + 1) % 2 ^ 32;
      estado_en_cpu = ck_pidio_escribir_archivo;
      volvio_entrada_salida = 0;
    } in
    if primera_vez e
    then no_volvio (
        responder_al_kernel ck_pidio_escribir_archivo
          (record (con_activo p e) { construccion = 0; voy_a_entrada_salida = false }))
    else de_vuelta (record e { construccion = 0 })

-- `moverCursor`
unfoldable pub mover_cursor : ℕ → ℤ → Ejecucion → Ejecucion
mover_cursor descriptor posicion e =
    con_activo
      (record e.pcb {
        descriptor = descriptor;
        offset_arch = palabra posicion;
        estado_en_cpu = ck_pidio_mover_cursor;
      })
      e

-- `wait`, whose name of a semaphore is copied into a `string_new()`
unfoldable pub wait : List ℕ → Ejecucion → Ejecucion
wait identificador_semaforo e =
    if primera_vez e
    then no_volvio
        (pedir ck_wait (con_activo (record e.pcb { nombre_semaforo = identificador_semaforo }) e))
    else de_vuelta e

-- The message of `almacenarEnMemoriaUnValor`, of a number or of a text.
abbrev pub pedido_de_guardar : PcbActivo → Posicion → Campo → List (List ℕ × Campo)
pedido_de_guardar p donde (numero valor) =
    (codes "pid", sin_signo p.pid)
    ∷ (codes "pagina", sin_signo donde.pagina)
    ∷ (codes "offset", sin_signo donde.offset)
    ∷ (codes "size", sin_signo donde.size)
    ∷ (codes "esNum", numero (pos 1))
    ∷ (codes "valor", numero valor)
    ∷ []
pedido_de_guardar p donde (texto t) =
    (codes "pid", sin_signo p.pid)
    ∷ (codes "pagina", sin_signo donde.pagina)
    ∷ (codes "offset", sin_signo donde.offset)
    ∷ (codes "size", sin_signo donde.size)
    ∷ (codes "esNum", numero (pos 0))
    ∷ (codes "texto", texto t)
    ∷ []

-- The answer of the memory server to a message is an argument.
module _ (guardar : List (List ℕ × Campo) → Mensaje) where
  -- `almacenarEnMemoriaUnValor`
  unfoldable pub almacenar_en_memoria_un_valor : Posicion → Campo → Ejecucion → Ejecucion
  almacenar_en_memoria_un_valor donde dato e =
      let m = guardar (pedido_de_guardar e.pcb donde dato) in
      let e' =
        if m.tipo == mc_guardar_respuesta
        then e
        else responder_al_kernel ck_finalizo_con_error (record e { abortar = true }) in
      if m.len == 0 then record e' { abortar = true } else e'

  -- `leer`. What was read goes to the memory server, filled up with blanks.
  unfoldable pub leer : ℕ → ℕ → ℕ → Ejecucion → Option Ejecucion
  unfolding almacenar_en_memoria_un_valor
  leer descriptor puntero tamanio e =
      let leido = e.pcb.informacion_leer in
      let donde = record (puntero_convertir_a_posicion e.pcb.tam_pagina puntero) {
        size = tamanio;
      } in
      if primera_vez e
      then some (
          no_volvio (
            pedir ck_pidio_leer_archivo
              (con_activo (record e.pcb { descriptor = descriptor; tam_a_escribir = tamanio }) e)))
      else (if leb (length leido) tamanio
          then some (
              de_vuelta (
                almacenar_en_memoria_un_valor donde
                  (texto (leido ++ replicate (tamanio - length leido) 32)) e))
          else none)
