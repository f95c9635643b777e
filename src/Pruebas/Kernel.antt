-- ===== src/Pruebas/Kernel.antt =====
-- The planning of src/kernel/kernel.c with three programs and one CPU.
use tp_sisop_1c_2017_david.Prelude.{
  partes, no_vacias, some, ℕ, ◌+◌, ◌≤◌, ℤ, pos, true, ◌≡◌, ◌⊎◌, refl, List, [], ◌∷◌, ◌++◌, length,
  codes, listas_puras, All, arith,
}
use tp_sisop_1c_2017_david.Kernel.Planificacion.{
  Kernel, Cpu, VarComp, Entorno, pcb_nulo, finalizar_programa,
}
use tp_sisop_1c_2017_david.Kernel.Planificacion.Colas.{cuenta_total}
use tp_sisop_1c_2017_david.Kernel.Semaforos.{wait_en, signal_en}
use tp_sisop_1c_2017_david.Kernel.Semaforos.Espera.{
  Operacion, espera, aviso, unidades, correr, concreto, semaforo-refina, semaforo-orden,
}
use tp_sisop_1c_2017_david.Kernel.Estado.{admitir_nuevos, despachar, actualizar_estado_sistema}
use tp_sisop_1c_2017_david.Kernel.Estado.Contado.{EnCupo, actualizar_estado_sistema-EnCupo}
use tp_sisop_1c_2017_david.Kernel.Estado.Despacho.{
  Despacho, Ocupada, despachar-Despacho, actualizar_estado_sistema-trabaja,
}
use tp_sisop_1c_2017_david.Kernel.Estado.Cancelado.{cancelar_nuevo-traba}
use tp_sisop_1c_2017_david.Kernel.Eventos.{
  exit_code_error_comando_finalizar, nuevo_programa, pk_respuesta_programa_ok,
}
use tp_sisop_1c_2017_david.Comunicacion.Campos.{numero}
use tp_sisop_1c_2017_david.Kernel.Minify.{
  script_to_bloques, script_to_list, comandos, bloques_desde,
}
use tp_sisop_1c_2017_david.Kernel.Eventos.Alcanza.{inicio, programa, actualizar, Alcanza-una_vez}

-- A memory server that counts the processes that ended, and files that do nothing.
abbrev entorno : Entorno ℕ ℕ
entorno = record {
  finalizar = λ m pid. m + 1;
  cargar = λ m p. (m, record p { paginas_pedidas = 2 });
  reservar_heap = λ m p espacio sock. ((m, p), (true, []));
  liberar_heap = λ m p puntero sock. (m, []);
  operar_archivo = λ a p. ((a, p), []);
  algoritmo = codes "RR";
  stack_max_size = pos 2;
}

abbrev vacio : Kernel ℕ ℕ
vacio = record {
  grado_multiprogramacion = 2;
  procesos_en_sistema = 0;
  new = [];
  ready = [];
  exec = [];
  blocked = [];
  exit = [];
  programas = [];
  cpus = [];
  variables_comp = [];
  semaforos_comp = [];
  memoria = 0;
  archivos = 0;
  enviados = [];
}

abbrev libre : Cpu
libre = record { sock = pos 7; activo = pos 1; libre = true }

-- Three programs wait to be admitted, and a CPU is free.
abbrev tres : Kernel ℕ ℕ
tres = record vacio {
  new = pos 1 ∷ pos 2 ∷ pos 3 ∷ [];
  programas = pcb_nulo (pos 1) ∷ pcb_nulo (pos 2) ∷ pcb_nulo (pos 3) ∷ [];
  cpus = libre ∷ [];
}

abbrev actualizado : Kernel ℕ ℕ
actualizado = actualizar_estado_sistema ⦃commons = listas_puras⦄ ⦃vars = listas_puras⦄ entorno tres

-- Of three programs the round admits the first and the third: the loop passes over the one behind each one that
-- it removes.
saltea_el_segundo : actualizado.new ≡ pos 2 ∷ []
unfolding actualizar_estado_sistema
saltea_el_segundo = refl

ejecuta_el_primero : actualizado.exec ≡ pos 1 ∷ []
unfolding actualizar_estado_sistema
ejecuta_el_primero = refl

actualizar_estado_sistema-EnCupo_example : EnCupo 2 actualizado
actualizar_estado_sistema-EnCupo_example =
    actualizar_estado_sistema-EnCupo ⦃commons = listas_puras⦄ ⦃vars = listas_puras⦄ entorno 2
      (omega arith) tres (refl, omega arith, omega arith)

abbrev dos_listos : Kernel ℕ ℕ
dos_listos = record vacio { ready = pos 4 ∷ pos 5 ∷ []; procesos_en_sistema = 2 }

despachar-Despacho_example :
    let r =
      despachar ⦃commons = listas_puras⦄ ⦃vars = listas_puras⦄ entorno (libre ∷ []) dos_listos in
    Despacho entorno (libre ∷ []) dos_listos r.0 r.1
despachar-Despacho_example =
    despachar-Despacho ⦃commons = listas_puras⦄ ⦃vars = listas_puras⦄ entorno (libre ∷ [])
      dos_listos

actualizar_estado_sistema-trabaja_example : (actualizado.ready ≡ []) ⊎ All Ocupada actualizado.cpus
actualizar_estado_sistema-trabaja_example =
    actualizar_estado_sistema-trabaja ⦃commons = listas_puras⦄ ⦃vars = listas_puras⦄ entorno tres

cancelar_nuevo-traba_example :
    let s' =
      finalizar_programa ⦃commons = listas_puras⦄ entorno
        (pos 9)
        (pos 2)
        exit_code_error_comando_finalizar
        tres in
    (admitir_nuevos ⦃commons = listas_puras⦄ ⦃vars = listas_puras⦄ entorno 3 0 s' ≡ s')
    × ((s'.ready ≡ []) × (s'.exec ≡ []) × (s'.blocked ≡ []))
cancelar_nuevo-traba_example =
    cancelar_nuevo-traba ⦃commons = listas_puras⦄ ⦃vars = listas_puras⦄ entorno (pos 9) (pos 2)
      exit_code_error_comando_finalizar tres 3 0 refl refl (omega arith)

-- The state after the first program, of one line.
abbrev con_uno : Kernel ℕ ℕ
con_uno = record vacio {
  new = pos 1 ∷ [];
  programas =
      record (pcb_nulo (pos 1)) {
        sock = pos 9;
        script = codes "begin";
        quantum = 4;
        quantum_sleep = 10;
        instrucciones = record { index = 0; pagina = 0; offset = 0; size = 5 } ∷ [];
      }
      ∷ [];
  enviados =
      record {
        sock = pos 9;
        tipo = pk_respuesta_programa_ok;
        campos = (codes "pid", numero (pos 1)) ∷ [];
      }
      ∷ [];
}

nuevo_programa_uno :
    nuevo_programa ⦃commons = listas_puras⦄ ⦃pcbs = listas_puras⦄ ⦃lista_cpus = listas_puras⦄
      (pos 1)
      4
      10
      (pos 9)
      (codes "begin")
      vacio
    ≡ some con_uno
unfolding nuevo_programa script_to_bloques script_to_list comandos no_vacias partes bloques_desde
nuevo_programa_uno = refl

Alcanza-una_vez_example :
    let s =
      actualizar_estado_sistema ⦃commons = listas_puras⦄ ⦃vars = listas_puras⦄ entorno con_uno in
    (cuenta_total (pos 1) s ≡ 1) × (cuenta_total (pos 1) s ≤ 1)
Alcanza-una_vez_example =
    Alcanza-una_vez ⦃commons = listas_puras⦄ ⦃vars = listas_puras⦄ ⦃pcbs = listas_puras⦄
      ⦃lista_cpus = listas_puras⦄ entorno (pos 1)
      (actualizar (
        programa 4 10 (pos 9) (codes "begin") (inicio 2 vacio refl) (omega arith)
          nuevo_programa_uno))

-- One unit: the first process passes, the second after the signal.
abbrev operaciones : List Operacion
operaciones = espera (pos 1) ∷ espera (pos 2) ∷ aviso ∷ []

semaforo-refina_example :
    ◌≡◌ {A = List ℤ × VarComp}
      (correr
        (wait_en ⦃commons = listas_puras⦄)
        (signal_en ⦃commons = listas_puras⦄)
        operaciones
        (concreto (codes "mutex") (unidades 1)))
      (pos 1 ∷ pos 2 ∷ [], concreto (codes "mutex") (unidades 0))
semaforo-refina_example =
    semaforo-refina ⦃commons = listas_puras⦄ (codes "mutex") operaciones (unidades 1)

semaforo-orden_example :
    let t =
      correr
        (wait_en ⦃commons = listas_puras⦄)
        (signal_en ⦃commons = listas_puras⦄)
        operaciones
        (concreto (codes "mutex") (unidades 1)) in
    (t.0 ++ t.1.pila_espera ≡ pos 1 ∷ pos 2 ∷ []) × (length t.0 ≤ 2)
semaforo-orden_example =
    semaforo-orden ⦃commons = listas_puras⦄ (codes "mutex") operaciones (unidades 1)
