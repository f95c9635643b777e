-- ===== src/Kernel/Estado.antt =====
-- actualizarEstadoSistema of src/kernel/kernel.c, with atenderES for the blocked processes.
pub mod Conserva
pub mod Contado
pub mod Cancelado
pub mod Despacho
use tp_sisop_1c_2017_david.Prelude.{
  ℕ, zero, suc, ◌+◌, ◌%◌, ◌^◌, ℤ, pos, negsuc, eqb_ℤ, Bool, true, false, ltb, leb, ◌==◌, ◌&&◌, ◌||◌,
  if◌then◌else◌, Option, none, some, List, [], ◌∷◌, ◌++◌, Commons, codes, length,
}
use tp_sisop_1c_2017_david.Kernel.Contexto.{campos_contexto, enviado}
use tp_sisop_1c_2017_david.Kernel.Planificacion.{
  Kernel, Pcb, Cpu, VarComp, Envio, Entorno, Cola, nuevos, listos, ejecutando, bloqueados,
  terminados, cola, con_cola, buscar, escribir_pcb, enviar, mover_programa_de_exec_a_ready,
  mover_programa_de_exec_a_blocked, mover_programa_de_exec_a_exit, finalizar_programa,
  finalizar_programa_con_error, exit_code_correcto, esperando_semaforo, termino_espera,
}
use tp_sisop_1c_2017_david.Kernel.Semaforos.{
  wait_semaforo, signal_semaforo, leer_variable, escribir_variable, responder,
}

-- The `OPERACION_` codes for files, and the others
abbrev pub es_de_archivo : ℕ → Bool
es_de_archivo op = op == 103 || (leb 105 op && leb op 108)

abbrev pub operacion_wait_semaforo : ℕ
operacion_wait_semaforo = 109

abbrev pub operacion_atendida : ℕ
operacion_atendida = 113

-- `CK_ENVIAR_CONTEXTO`
abbrev pub ck_enviar_contexto : ℕ
ck_enviar_contexto = 100

module _ ⦃commons : Commons ℤ⦄ ⦃vars : Commons VarComp⦄ {σ φ : Type 0} (entorno : Entorno σ φ) where
  -- The switch of `atenderES`
  unfoldable pub atender_operacion : ℕ → ℤ → Kernel σ φ → Kernel σ φ
  unfolding wait_semaforo
  atender_operacion op pid s = elim (es_de_archivo op) [
    | true ↦
        let r = entorno.operar_archivo s.archivos (buscar s pid) in
        let s' = escribir_pcb (λ _. r.0.1) pid s in
        record s' { archivos = r.0.0; enviados = r.1 ++ s'.enviados }
    | false ↦ elim (op == operacion_wait_semaforo) [ true ↦ wait_semaforo pid s | false ↦ s ]
  ]

  -- `atenderES`
  unfoldable pub atender_es : ℤ → Kernel σ φ → Kernel σ φ
  unfolding atender_operacion
  atender_es pid s₀ =
      let s =
        escribir_pcb (λ p. record p { fui_a_entrada_salida = 1; exit_code = exit_code_correcto })
          pid s₀ in
      escribir_pcb (λ p. record p { operacion_es = operacion_atendida; fui_a_entrada_salida = 1 })
        pid (atender_operacion (buscar s pid).operacion_es pid s)

  -- The body of the loop over the blocked processes, for the one at index `i`.
  unfoldable pub revisar_bloqueado : ℤ → ℕ → Kernel σ φ → Kernel σ φ
  unfolding atender_es finalizar_programa_con_error
  revisar_bloqueado pid i s = elim (eqb_ℤ (buscar s pid).exit_code termino_espera) [
    | true ↦ escribir_pcb (λ p. record p { exit_code = exit_code_correcto }) pid s
    | false ↦ elim (eqb_ℤ (buscar s pid).exit_code esperando_semaforo) [
      | true ↦ s
      | false ↦
          let s' = atender_es pid s in
          elim (eqb_ℤ (buscar s' pid).exit_code exit_code_correcto) [
            | true ↦
                let t = con_cola bloqueados (commons.list_remove (cola bloqueados s') i) s' in
                con_cola listos (commons.list_add (cola listos t) pid) t
            | false ↦ elim (eqb_ℤ (buscar s' pid).exit_code esperando_semaforo) [
              | true ↦ s'
              | false ↦ finalizar_programa_con_error entorno bloqueados pid s'
            ]
          ]
    ]
  ]

  -- The loops of `actualizarEstadoSistema` over lists that they remove from, on fuel: as many rounds as the
  -- list has elements at the start.
  unfoldable pub revisar_bloqueados : ℕ → ℕ → Kernel σ φ → Kernel σ φ
  unfolding revisar_bloqueado
  revisar_bloqueados zero i s = s
  revisar_bloqueados (suc fuel) i s = elim (commons.list_get s.blocked i) [
    | none ↦ s
    | some pid ↦ revisar_bloqueados fuel (suc i) (revisar_bloqueado pid i s)
  ]

  unfoldable pub admitir : ℤ → ℕ → Kernel σ φ → Kernel σ φ
  admitir pid i s =
      let r = entorno.cargar s.memoria (buscar s pid) in
      let s' = escribir_pcb (λ _. r.1) pid (record s { memoria = r.0 }) in
      let t = con_cola nuevos (commons.list_remove (cola nuevos s') i) s' in
      let u = con_cola listos (commons.list_add (cola listos t) pid) t in
      record u { procesos_en_sistema = (u.procesos_en_sistema + 1) % 2 ^ 32 }

  unfoldable pub admitir_nuevos : ℕ → ℕ → Kernel σ φ → Kernel σ φ
  unfolding admitir
  admitir_nuevos zero i s = s
  admitir_nuevos (suc fuel) i s = elim (commons.list_get s.new i) [
    | none ↦ s
    | some pid ↦
        admitir_nuevos fuel (suc i) (elim (ltb s.procesos_en_sistema s.grado_multiprogramacion) [
          | true ↦ admitir pid i s
          | false ↦ s
        ])
  ]

  -- The loop over the CPUs, which sends the first ready process to each one that is active and free.
  unfoldable pub despachar : List Cpu → Kernel σ φ → List Cpu × Kernel σ φ
  despachar [] s = ([], s)
  despachar (cpu ∷ cpus) s = elim (cpu.libre) [
    | false ↦ let r = despachar cpus s in (cpu ∷ r.0, r.1)
    | true ↦ elim (eqb_ℤ cpu.activo (pos 0)) [
      | true ↦ let r = despachar cpus s in (cpu ∷ r.0, r.1)
      | false ↦ elim (commons.list_get s.ready 0) [
        | none ↦ let r = despachar cpus s in (cpu ∷ r.0, r.1)
        | some pid ↦
            let t = con_cola ejecutando (commons.list_add s.exec pid) s in
            let campos = campos_contexto entorno.algoritmo entorno.stack_max_size (buscar s pid) in
            let u = escribir_pcb enviado pid (enviar cpu.sock ck_enviar_contexto campos t) in
            let r = despachar cpus (con_cola listos (commons.list_remove u.ready 0) u) in
            (record cpu { libre = false } ∷ r.0, r.1)
      ]
    ]
  ]

  -- `actualizarEstadoSistema`
  unfoldable pub actualizar_estado_sistema : Kernel σ φ → Kernel σ φ
  unfolding revisar_bloqueados admitir_nuevos despachar
  actualizar_estado_sistema s =
      let t = revisar_bloqueados (length s.blocked) 0 s in
      let u = admitir_nuevos (length t.new) 0 t in
      let r = despachar u.cpus u in record r.1 { cpus = r.0 }
