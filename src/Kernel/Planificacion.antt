-- ===== src/Kernel/Planificacion.antt =====
-- The process lists of src/kernel/kernel.c and the moves between them. A pointer to a PCB is the number of its
-- process, which nuevoPrograma gives out once; the PCBs themselves are in `programas`, which loses none.
mod Estructuras
pub mod Colas
pub mod Mover
unfoldable pub use Estructuras.*
use tp_sisop_1c_2017_david.Prelude.{
  ℕ, zero, suc, ◌+◌, ◌-◌, ◌%◌, ◌^◌, ℤ, pos, negsuc, minus_one, eqb_ℤ, Bool, true, false,
  if◌then◌else◌, Option, none, some, List, [], ◌∷◌, Commons, codes,
}
use tp_sisop_1c_2017_david.Comunicacion.Campos.{Campo, numero}

module _ {σ φ : Type 0} where
  abbrev pub cola : Cola → Kernel σ φ → List ℤ
  cola nuevos s = s.new
  cola listos s = s.ready
  cola ejecutando s = s.exec
  cola bloqueados s = s.blocked
  cola terminados s = s.exit

  abbrev pub con_cola : Cola → List ℤ → Kernel σ φ → Kernel σ φ
  con_cola nuevos l s = record s { new = l }
  con_cola listos l s = record s { ready = l }
  con_cola ejecutando l s = record s { exec = l }
  con_cola bloqueados l s = record s { blocked = l }
  con_cola terminados l s = record s { exit = l }

  abbrev pub buscar : Kernel σ φ → ℤ → Pcb
  buscar s pid = pcb_de s.programas pid

  abbrev pub escribir_pcb : (Pcb → Pcb) → ℤ → Kernel σ φ → Kernel σ φ
  escribir_pcb f pid s = record s { programas = con_pcb f pid s.programas }

  abbrev pub enviar : ℤ → ℕ → List (List ℕ × Campo) → Kernel σ φ → Kernel σ φ
  enviar sock tipo campos s = record s {
    enviados = record { sock = sock; tipo = tipo; campos = campos } ∷ s.enviados;
  }

module _ ⦃commons : Commons ℤ⦄ where
  abbrev pub esta : ℤ → List ℤ → Bool
  esta pid lista = elim (commons.list_find lista (λ q. eqb_ℤ q pid)) [
    | none ↦ false
    | some q ↦ true
  ]

module _ ⦃commons : Commons ℤ⦄ {σ φ : Type 0} where
  -- The body that the searches through a list share: the process found leaves it for another list.
  unfoldable pub mover : Cola → Cola → ℤ → Kernel σ φ → Option (Kernel σ φ)
  unfolding indice
  mover origen destino pid s = elim (indice pid (cola origen s)) [
    | none ↦ none
    | some i ↦
        let s' = con_cola origen (commons.list_remove (cola origen s) i) s in
        some (con_cola destino (commons.list_add (cola destino s') pid) s')
  ]

  -- `moverProgramaDeExecAReady`
  unfoldable pub mover_programa_de_exec_a_ready : ℤ → Kernel σ φ → Kernel σ φ
  unfolding mover
  mover_programa_de_exec_a_ready pid s = elim (mover ejecutando listos pid s) [
    | none ↦ s
    | some s' ↦ s'
  ]

  -- `moverProgramaDeExecABlocked`
  unfoldable pub mover_programa_de_exec_a_blocked : ℤ → Kernel σ φ → Kernel σ φ
  unfolding mover
  mover_programa_de_exec_a_blocked pid s = elim (mover ejecutando bloqueados pid s) [
    | none ↦ s
    | some s' ↦ s'
  ]

  -- `mensajeAConsolaFinalizo`
  abbrev pub mensaje_a_consola_finalizo : ℤ → ℤ → Kernel σ φ → Kernel σ φ
  mensaje_a_consola_finalizo error_code sock_consola s =
      enviar sock_consola pk_finalizo_programa ((codes "codigo_retorno", numero error_code) ∷ []) s

  -- `mensajeAMemoriaFinalizado`
  abbrev pub mensaje_a_memoria_finalizado : Entorno σ φ → ℤ → Kernel σ φ → Kernel σ φ
  mensaje_a_memoria_finalizado entorno pid s = record s {
    memoria = entorno.finalizar s.memoria pid;
  }

  -- What a process that ends leaves: memory freed, its console told, and one process less.
  abbrev pub terminar : Entorno σ φ → ℤ → Kernel σ φ → Kernel σ φ
  terminar entorno pid s =
      let proceso = buscar s pid in
      let s' =
        mensaje_a_consola_finalizo proceso.exit_code proceso.sock
          (mensaje_a_memoria_finalizado entorno pid s) in
      record s' { procesos_en_sistema = restar_uno s'.procesos_en_sistema }

  -- `moverProgramaDeExecAExit`
  unfoldable pub mover_programa_de_exec_a_exit : Entorno σ φ → ℤ → Kernel σ φ → Kernel σ φ
  unfolding mover
  mover_programa_de_exec_a_exit entorno pid s = elim (mover ejecutando terminados pid s) [
    | none ↦ s
    | some s' ↦ terminar entorno pid s'
  ]

  -- `finalizarProgramaConError`
  unfoldable pub finalizar_programa_con_error : Entorno σ φ → Cola → ℤ → Kernel σ φ → Kernel σ φ
  unfolding mover
  finalizar_programa_con_error entorno origen pid s = elim (mover origen terminados pid s) [
    | none ↦ s
    | some s' ↦ terminar entorno pid s'
  ]

  -- One list of `finalizarPrograma`: the process found there ends with the code.
  abbrev pub finalizar_en : Entorno σ φ → Cola → ℤ → ℤ → Kernel σ φ → Kernel σ φ
  finalizar_en entorno c pid codigo s =
      finalizar_programa_con_error entorno c pid
        (escribir_pcb (λ p. record p { exit_code = codigo }) pid s)

  -- The searches of `finalizarPrograma`: the first list that holds the process loses it.
  unfoldable pub finalizar_donde_este : Entorno σ φ → ℤ → ℤ → Kernel σ φ → Kernel σ φ
  unfolding finalizar_programa_con_error
  finalizar_donde_este entorno pid codigo s = elim (esta pid s.new) [
    | true ↦ finalizar_en entorno nuevos pid codigo s
    | false ↦ elim (esta pid s.ready) [
      | true ↦ finalizar_en entorno listos pid codigo s
      | false ↦ elim (esta pid s.exec) [
        | true ↦ finalizar_en entorno ejecutando pid codigo s
        | false ↦ elim (esta pid s.blocked) [
          | true ↦ finalizar_en entorno bloqueados pid codigo s
          | false ↦ s
        ]
      ]
    ]
  ]

  -- `finalizarPrograma`
  abbrev pub finalizar_programa : Entorno σ φ → ℤ → ℤ → ℤ → Kernel σ φ → Kernel σ φ
  finalizar_programa entorno sock pid codigo s =
      finalizar_donde_este entorno pid codigo
        (if eqb_ℤ sock minus_one then mensaje_a_consola_finalizo codigo sock s else s)
