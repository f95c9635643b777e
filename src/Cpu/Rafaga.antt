-- ===== src/Cpu/Rafaga.antt =====
-- The instructions of a process one by one: ejecutarRafaga and the loop of main in src/cpu/cpu.c. The parser of
-- ANSISOP, which calls the primitives, is an argument. `none` is a fault, or no fuel left.
use tp_sisop_1c_2017_david.Prelude.{
  ℕ, zero, suc, ◌+◌, ◌%◌, ◌^◌, ◌==◌, ltb, palabra, Bool, true, false, if◌then◌else◌, Option, none,
  some, ◌>>=◌, List, codes, Commons,
}
use tp_sisop_1c_2017_david.Comunicacion.{iguales}
use tp_sisop_1c_2017_david.Contexto.{Etiqueta, Nivel, Codigo}
use tp_sisop_1c_2017_david.Cpu.Variables.{Variable}
use tp_sisop_1c_2017_david.Cpu.Llamadas.{
  Ejecucion, Servicios, responder_al_kernel, pedir_a_memoria_string, villereada, ejecutando,
  ck_finalizo_ejecucion, ck_finalizo_con_error, ck_finalizo_stackoverflow,
}

-- `CK_FINALIZO_QUANTUM`
abbrev pub ck_finalizo_quantum : ℕ
ck_finalizo_quantum = 102

module _ (servicios : Servicios) (analizador_linea : List ℕ → Ejecucion → Option Ejecucion)
    ⦃etiquetas : Commons Etiqueta⦄ ⦃codigos : Commons Codigo⦄
    ⦃niveles : Commons (Nivel Variable)⦄ where
  -- The text of the instruction at an index, a NULL of the list or of the text being a fault.
  unfoldable pub sentencia_en : ℕ → Ejecucion → Option (Ejecucion × List ℕ)
  sentencia_en i e = codigos.list_get e.pcb.indice_codigo i >>= λ c.
      pedir_a_memoria_string servicios c e >>= λ r. r.1 >>= λ t. some (r.0, t)

  -- Before a line is analysed, the id of the running level is read for the log.
  unfoldable pub analizar : List ℕ → Ejecucion → Option Ejecucion
  analizar sentencia e =
      niveles.list_get e.pcb.indice_stack e.pcb.stack_level >>= λ n. analizador_linea sentencia e

  abbrev pub seguir : Ejecucion → Ejecucion
  seguir e =
      if e.pcb.volvio_entrada_salida == 0
      then record e {
        pcb = record e.pcb { program_counter = (e.pcb.program_counter + 1) % 2 ^ 32 };
        continuar_ejecutando = (e.continuar_ejecutando + 1) % 2 ^ 32;
      }
      else e

  -- The process at its first instruction, which is not "begin".
  unfoldable pub desde_begin : Ejecucion → Option Ejecucion
  unfolding villereada sentencia_en analizar
  desde_begin e = villereada servicios (codes "begin") true e >>= λ r.
      let e' = record r.0 { pcb = record r.0.pcb { program_counter = palabra r.1 } } in
      sentencia_en e'.pcb.program_counter e' >>= λ s. analizar s.1 s.0

  -- `ejecutarRafaga`
  unfoldable pub ejecutar_rafaga : Ejecucion → Option Ejecucion
  unfolding sentencia_en analizar desde_begin
  ejecutar_rafaga e = sentencia_en e.pcb.program_counter e >>= λ s.
      elim (iguales s.1 (codes "begin")) [
        | true ↦ some (record s.0 {
          pcb = record s.0.pcb { program_counter = (s.0.pcb.program_counter + 1) % 2 ^ 32 };
        })
        | false ↦ elim (s.0.pcb.program_counter == 0) [
          | true ↦ desde_begin s.0
          | false ↦ analizar s.1 s.0 >>= λ t. some (seguir t)
        ]
      ]

  -- The rest of a round: one burst more, and the end of the loop where the process does not run on.
  abbrev pub tras_rafaga : Ejecucion → Ejecucion
  tras_rafaga e =
      let p = record e.pcb { cantidad_rafagas = (e.pcb.cantidad_rafagas + 1) % 2 ^ 32 } in
      if p.estado_en_cpu == ejecutando
      then record e { pcb = p }
      else record e { pcb = p; continuar_ejecutando = (p.quantum + 1000) % 2 ^ 32 }

  -- The loop, on fuel.
  unfoldable pub ciclo : ℕ → Ejecucion → Option Ejecucion
  unfolding ejecutar_rafaga
  ciclo zero e = none
  ciclo (suc fuel) e = elim (ltb e.continuar_ejecutando e.pcb.quantum) [
    | false ↦ some e
    | true ↦ ejecutar_rafaga e >>= λ t. ciclo fuel (tras_rafaga t)
  ]

-- The states with which a process that asked for something leaves the loop: the kernel is told by the primitive,
-- if at all.
abbrev pub es_pedido : ℕ → Bool
es_pedido estado =
    if estado == 103
    then true
    else if estado == 104
    then true
    else if estado == 105
    then true
    else if estado == 106
    then true
    else if estado == 107
    then true
    else if estado == 108
    then true
    else estado == 115

-- What the kernel is told after the loop.
unfoldable pub avisar_fin : Ejecucion → Ejecucion
avisar_fin e =
    let estado = e.pcb.estado_en_cpu in
    if e.pcb.volvio_entrada_salida == 1
    then e
    else if estado == ejecutando
    then responder_al_kernel ck_finalizo_quantum e
    else if estado == ck_finalizo_stackoverflow
    then responder_al_kernel ck_finalizo_stackoverflow e
    else if estado == ck_finalizo_ejecucion
    then responder_al_kernel ck_finalizo_ejecucion e
    else if es_pedido estado
    then e
    else responder_al_kernel ck_finalizo_con_error e
