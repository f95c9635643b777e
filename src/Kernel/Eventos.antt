-- ===== src/Kernel/Eventos.antt =====
-- The main loop of src/kernel/kernel.c: connections, the messages of programs and those of CPUs. A message is
-- taken as it was read, its fields already looked up. An outer `none` is a fault.
pub mod Pasos
pub mod Alcanza
use tp_sisop_1c_2017_david.Prelude.{
  ℕ, zero, suc, ◌+◌, ◌%◌, ◌^◌, ℤ, pos, negsuc, minus_one, eqb_ℤ, Bool, true, false, if◌then◌else◌,
  Option, none, some, ◌>>=◌, List, [], ◌∷◌, ◌++◌, Commons, codes, get_or, set, sin_indice,
}
use tp_sisop_1c_2017_david.Comunicacion.{Mensaje, com_leer_int}
use tp_sisop_1c_2017_david.Comunicacion.Campos.{Campo, numero}
use tp_sisop_1c_2017_david.Kernel.Contexto.{actualizar_pcb}
use tp_sisop_1c_2017_david.Kernel.Minify.{script_to_bloques}
use tp_sisop_1c_2017_david.Kernel.Planificacion.{
  Kernel, Pcb, Cpu, VarComp, Envio, Entorno, buscar, escribir_pcb, enviar, pcb_nulo,
  mover_programa_de_exec_a_ready, mover_programa_de_exec_a_blocked, mover_programa_de_exec_a_exit,
  finalizar_programa, exit_code_correcto,
}
use tp_sisop_1c_2017_david.Kernel.Semaforos.{
  signal_semaforo, leer_variable, escribir_variable, responder,
}
use tp_sisop_1c_2017_david.Kernel.Estado.{actualizar_estado_sistema, operacion_wait_semaforo}

-- The types of the messages that a CPU sends, with the fields that the loop reads of each one.
pub data Evento : Type 0 where
  finalizo_ejecucion : Evento
  finalizo_quantum : Evento
  pidio_abrir_archivo : Evento
  pidio_leer_archivo : Evento
  pidio_escribir_archivo : Evento
  pidio_cerrar_archivo : Evento
  pidio_borrar_archivo : Evento
  finalizo_con_error : Evento
  finalizo_stackoverflow : Evento
  alocar : ℤ → Evento
  liberar : ℤ → Evento
  wait : List ℕ → Evento
  signal : List ℕ → Evento
  variable_lectura : List ℕ → Evento
  variable_escritura : List ℕ → ℤ → Evento
  otro : Evento

-- `EXIT_CODE_ERROR_EXCEPCION_MEMORIA`, `EXIT_CODE_ERROR_STACKOVERFLOW` and `EXIT_CODE_ERROR_LIMITE_PAGINA`
abbrev pub exit_code_error_excepcion_memoria : ℤ
exit_code_error_excepcion_memoria = negsuc 4

abbrev pub exit_code_error_stackoverflow : ℤ
exit_code_error_stackoverflow = negsuc 9

abbrev pub exit_code_error_limite_pagina : ℤ
exit_code_error_limite_pagina = negsuc 7

-- `EXIT_CODE_ERROR_COMANDO_FINALIZAR`
abbrev pub exit_code_error_comando_finalizar : ℤ
exit_code_error_comando_finalizar = negsuc 6

-- `KC_FINALIZO_PROGRAMA` and `PK_RESPUESTA_PROGRAMA_OK`
abbrev pub kc_finalizo_programa : ℕ
kc_finalizo_programa = 124

abbrev pub pk_respuesta_programa_ok : ℕ
pk_respuesta_programa_ok = 501

abbrev pub cpu_nulo : Cpu
cpu_nulo = record { sock = minus_one; activo = pos 0; libre = false }

module _ {σ φ : Type 0} where
  -- A write through the pointer to the CPU at an index.
  abbrev pub con_cpu : (Cpu → Cpu) → ℕ → Kernel σ φ → Kernel σ φ
  con_cpu f i s = record s { cpus = set s.cpus i (f (get_or s.cpus i cpu_nulo)) }

  abbrev pub liberar_cpu : ℕ → Kernel σ φ → Kernel σ φ
  liberar_cpu i s = con_cpu (λ c. record c { libre = true }) i s

  abbrev pub con_instruccion : ℤ → Kernel σ φ → Kernel σ φ
  con_instruccion pid s =
      escribir_pcb (λ p. record p { cant_inst_priv = p.cant_inst_priv + 1 }) pid s

  abbrev pub con_error : ℤ → ℤ → Kernel σ φ → Kernel σ φ
  con_error codigo pid s = escribir_pcb (λ p. record p { exit_code = codigo }) pid s

module _ ⦃commons : Commons ℤ⦄ {σ φ : Type 0} where
  -- `pedidoDeAbrirArchivo`, `pedidoDeLeerArchivo`, `pedidoEscribirArchivo`, `pedidoCerrarArchivo` and
  -- `pedidoBorrarArchivo`, which all do the same
  abbrev pub pedido_de_archivo : ℤ → Kernel σ φ → Kernel σ φ
  pedido_de_archivo pid s = mover_programa_de_exec_a_blocked pid s

  -- The five cases of the switch that ask for a file
  abbrev pub pedir_archivo : ℕ → ℕ → ℤ → Kernel σ φ → Kernel σ φ
  pedir_archivo operacion i pid s = liberar_cpu i (
      escribir_pcb
        (λ p. record p {
          cant_inst_priv = p.cant_inst_priv + 1;
          cant_syscalls = p.cant_syscalls + 1;
          operacion_es = operacion;
        })
        pid (pedido_de_archivo pid s))

module _ ⦃commons : Commons ℤ⦄ ⦃vars : Commons VarComp⦄ {σ φ : Type 0} (entorno : Entorno σ φ) where
  -- The case `CK_ALOCAR`, with the state and the answer of `reservarMemoriaHeap`
  abbrev pub alocado : ℕ → ℤ → Bool → Kernel σ φ → Kernel σ φ × Bool
  alocado i pid true s = (con_instruccion pid s, false)
  alocado i pid false s = (
    liberar_cpu i (finalizar_programa entorno minus_one pid exit_code_error_limite_pagina s),
    true,
  )

  -- The switch over the type of a CPU's message, and `actPCB`. `i` is the index of the CPU and `sock` its socket.
  unfoldable pub atender_evento : ℕ → ℤ → ℤ → Evento → Kernel σ φ → Option (Kernel σ φ × Bool)
  atender_evento i sock pid finalizo_ejecucion s =
      some (liberar_cpu i (mover_programa_de_exec_a_exit entorno pid s), true)
  atender_evento i sock pid finalizo_quantum s =
      some (liberar_cpu i (mover_programa_de_exec_a_ready pid s), true)
  atender_evento i sock pid pidio_abrir_archivo s = some (pedir_archivo 103 i pid s, true)
  atender_evento i sock pid pidio_leer_archivo s = some (pedir_archivo 105 i pid s, true)
  atender_evento i sock pid pidio_escribir_archivo s = some (pedir_archivo 106 i pid s, true)
  atender_evento i sock pid pidio_cerrar_archivo s = some (pedir_archivo 107 i pid s, true)
  atender_evento i sock pid pidio_borrar_archivo s = some (pedir_archivo 108 i pid s, true)
  atender_evento i sock pid finalizo_con_error s = some (
    liberar_cpu i (
        mover_programa_de_exec_a_exit entorno pid
          (con_error exit_code_error_excepcion_memoria pid s)),
    true,
  )
  atender_evento i sock pid finalizo_stackoverflow s = some (
    liberar_cpu i
        (mover_programa_de_exec_a_exit entorno pid (con_error exit_code_error_stackoverflow pid s)),
    true,
  )
  atender_evento i sock pid (alocar espacio) s =
      let r = entorno.reservar_heap s.memoria (buscar s pid) espacio sock in
      let s' =
        escribir_pcb (λ _. r.0.1) pid
          (record s { memoria = r.0.0; enviados = r.1.1 ++ s.enviados }) in
      some (alocado i pid r.1.0 s')
  atender_evento i sock pid (liberar puntero) s =
      let r = entorno.liberar_heap s.memoria (buscar s pid) puntero sock in
      some (con_instruccion pid (record s { memoria = r.0; enviados = r.1 ++ s.enviados }), false)
  atender_evento i sock pid (wait nombre) s =
      let s' =
        escribir_pcb
          (λ p. record p { nombre_semaforo = nombre; operacion_es = operacion_wait_semaforo }) pid
          s in
      some (con_instruccion pid (mover_programa_de_exec_a_blocked pid s'), true)
  atender_evento i sock pid (signal nombre) s =
      signal_semaforo pid sock nombre s >>= λ s'. some (con_instruccion pid s', false)
  atender_evento i sock pid (variable_lectura nombre) s =
      some (con_instruccion pid (leer_variable sock nombre s), false)
  atender_evento i sock pid (variable_escritura nombre valor) s =
      some (con_instruccion pid (escribir_variable sock nombre valor s), false)
  atender_evento i sock pid otro s = some (s, true)

  -- `modificarGradoMult`, of a number, and `finalizarProceso`: commands of the console, each taken as one step
  abbrev pub modificar_grado_mult : ℕ → Kernel σ φ → Kernel σ φ
  modificar_grado_mult grado s =
      actualizar_estado_sistema entorno (record s { grado_multiprogramacion = grado % 2 ^ 32 })

  abbrev pub finalizar_proceso_en_consola : ℤ → Kernel σ φ → Kernel σ φ
  finalizar_proceso_en_consola pid s =
      finalizar_programa entorno minus_one pid exit_code_error_comando_finalizar s

  -- What follows the switch: the PCB brought up to date from the message, and the CPU set free.
  unfoldable pub tras_evento : Mensaje → ℕ → ℤ → Kernel σ φ × Bool → Option (Kernel σ φ)
  unfolding actualizar_pcb
  tras_evento mensaje i pid (s, false) = some s
  tras_evento mensaje i pid (s, true) = do
    pcb ← actualizar_pcb (buscar s pid) mensaje
    continua_activo ← com_leer_int mensaje (codes "continua_activo")
    some (
        con_cpu (λ c. record c { activo = continua_activo; libre = true }) i
          (escribir_pcb (λ _. pcb) pid s))

module _ ⦃commons : Commons ℤ⦄ ⦃vars : Commons VarComp⦄ ⦃pcbs : Commons Pcb⦄ {σ φ : Type 0}
    (entorno : Entorno σ φ) where
  -- One message of the CPU at index `i`. A process that was never created is answered with its end.
  unfoldable pub atender_cpu : Mensaje → ℕ → ℤ → Evento → Kernel σ φ → Option (Kernel σ φ)
  unfolding atender_evento tras_evento
  atender_cpu mensaje i pid evento s =
      let sock = (get_or s.cpus i cpu_nulo).sock in
      elim (pcbs.list_find s.programas (λ p. eqb_ℤ p.pid pid)) [
        | none ↦ some (responder sock kc_finalizo_programa (pos 0) s)
        | some p ↦
            atender_evento entorno i sock pid evento s >>= λ r. tras_evento entorno mensaje i pid r
      ]

module _ ⦃commons : Commons ℤ⦄ ⦃pcbs : Commons Pcb⦄ ⦃lista_cpus : Commons Cpu⦄ {σ φ : Type 0} where
  -- `nuevoPrograma`, of a program whose handshake and first message are as they should be.
  unfoldable pub nuevo_programa : ℤ → ℕ → ℕ → ℤ → List ℕ → Kernel σ φ → Option (Kernel σ φ)
  nuevo_programa numero_pid quantum quantum_sleep sock script s =
      script_to_bloques script >>= λ instrucciones. some (
        enviar sock pk_respuesta_programa_ok ((codes "pid", numero numero_pid) ∷ []) (record s {
          new = commons.list_add s.new numero_pid;
          programas = pcbs.list_add s.programas (record (pcb_nulo numero_pid) {
            sock = sock;
            script = script;
            quantum = quantum;
            quantum_sleep = quantum_sleep;
            instrucciones = instrucciones;
          });
        }))

  -- `nuevoCPU`
  unfoldable pub nuevo_cpu : ℤ → Kernel σ φ → Kernel σ φ
  nuevo_cpu sock s = record s {
    cpus = lista_cpus.list_add s.cpus (record { sock = sock; activo = pos 1; libre = true });
  }

  -- A CPU that hung up is taken from the list.
  unfoldable pub desconectar_cpu : ℕ → Kernel σ φ → Kernel σ φ
  desconectar_cpu i s = record s { cpus = lista_cpus.list_remove s.cpus i }
