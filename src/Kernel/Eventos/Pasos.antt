-- ===== src/Kernel/Eventos/Pasos.antt =====
-- What the messages of programs and CPUs do to the lists of src/kernel/kernel.c.
use tp_sisop_1c_2017_david.Prelude.{
  SiHay, SiHay-mapear, subst, codes, ℕ, ℤ, pos, minus_one, eqb_ℤ, Bool, true, false, Bool-cases,
  ◌≡◌, refl, sym, ap, ◌∙◌, Option, Option-cases, none, some, List, ◌++◌, inl, inr, get_or, Commons,
  ◌>>=◌,
}
use tp_sisop_1c_2017_david.Comunicacion.{Mensaje, com_leer_int, iguales}
use tp_sisop_1c_2017_david.Kernel.Contexto.{actualizar_pcb}
use tp_sisop_1c_2017_david.Kernel.Planificacion.{
  Kernel, Pcb, VarComp, Entorno, nuevos, listos, ejecutando, bloqueados, terminados, buscar, mover,
  escribir_pcb, finalizar_programa, finalizar_donde_este, termino_espera, esta,
  mensaje_a_consola_finalizo, mover_programa_de_exec_a_ready, mover_programa_de_exec_a_blocked,
  mover_programa_de_exec_a_exit,
}
use tp_sisop_1c_2017_david.Kernel.Planificacion.Mover.{mover-Movido}
use tp_sisop_1c_2017_david.Kernel.Semaforos.{
  lectura_de, escritura_de, kc_signal_respuesta, avisar_en, con_var, signal_semaforo, signal_en,
  despertar, responder,
}
use tp_sisop_1c_2017_david.Kernel.Estado.{operacion_wait_semaforo}
use tp_sisop_1c_2017_david.Kernel.Estado.Conserva.{
  plan, Reparte, MismasColas, MismasColas-Reparte, despertar-MismasColas,
  finalizar_programa_con_error-Reparte,
}
use tp_sisop_1c_2017_david.Kernel.Eventos.{
  Evento, finalizo_ejecucion, finalizo_quantum, pidio_abrir_archivo, pidio_leer_archivo,
  pidio_escribir_archivo, pidio_cerrar_archivo, pidio_borrar_archivo, finalizo_con_error,
  finalizo_stackoverflow, alocar, liberar, wait, signal, variable_lectura, variable_escritura, otro,
  atender_evento, alocado, tras_evento, atender_cpu, con_error, cpu_nulo,
  exit_code_error_excepcion_memoria, exit_code_error_stackoverflow, exit_code_error_limite_pagina,
}

module _ ⦃commons : Commons ℤ⦄ {σ φ : Type 0} where
  a_ready-Reparte : (pid : ℤ) (s : Kernel σ φ) → Reparte s (mover_programa_de_exec_a_ready pid s)
  unfolding mover_programa_de_exec_a_ready
  a_ready-Reparte pid s q = elim (Option-cases (mover ejecutando listos pid s)) [
    | inl e ↦ rw (mover_programa_de_exec_a_ready, e) refl
    | inr (s', e) ↦
        rw (mover_programa_de_exec_a_ready, e) ((mover-Movido ejecutando listos pid s e).total q)
  ]

  a_blocked-Reparte :
      (pid : ℤ) (s : Kernel σ φ) → Reparte s (mover_programa_de_exec_a_blocked pid s)
  unfolding mover_programa_de_exec_a_blocked
  a_blocked-Reparte pid s q = elim (Option-cases (mover ejecutando bloqueados pid s)) [
    | inl e ↦ rw (mover_programa_de_exec_a_blocked, e) refl
    | inr (s', e) ↦
        rw (mover_programa_de_exec_a_blocked, e)
          ((mover-Movido ejecutando bloqueados pid s e).total q)
  ]

module _ ⦃commons : Commons ℤ⦄ ⦃vars : Commons VarComp⦄ {σ φ : Type 0} (entorno : Entorno σ φ) where
  a_exit-Reparte :
      (pid : ℤ) (s : Kernel σ φ) → Reparte s (mover_programa_de_exec_a_exit entorno pid s)
  unfolding mover_programa_de_exec_a_exit
  a_exit-Reparte pid s q = elim (Option-cases (mover ejecutando terminados pid s)) [
    | inl e ↦ rw (mover_programa_de_exec_a_exit, e) refl
    | inr (s', e) ↦
        rw (mover_programa_de_exec_a_exit, e) ((mover-Movido ejecutando terminados pid s e).total q)
  ]

  finalizar_donde_este-Reparte :
      (pid codigo : ℤ) (s : Kernel σ φ) → Reparte s (finalizar_donde_este entorno pid codigo s)
  unfolding finalizar_donde_este
  finalizar_donde_este-Reparte pid codigo s q =
      let t = con_error codigo pid s in
      elim (Bool-cases (esta pid s.new)) [
        | inl a ↦
            rw (finalizar_donde_este, a)
              (finalizar_programa_con_error-Reparte entorno nuevos pid t q)
        | inr a ↦ elim (Bool-cases (esta pid s.ready)) [
          | inl b ↦
              rw (finalizar_donde_este, a, b)
                (finalizar_programa_con_error-Reparte entorno listos pid t q)
          | inr b ↦ elim (Bool-cases (esta pid s.exec)) [
            | inl c ↦
                rw (finalizar_donde_este, a, b, c)
                  (finalizar_programa_con_error-Reparte entorno ejecutando pid t q)
            | inr c ↦ elim (Bool-cases (esta pid s.blocked)) [
              | inl d ↦
                  rw (finalizar_donde_este, a, b, c, d)
                    (finalizar_programa_con_error-Reparte entorno bloqueados pid t q)
              | inr d ↦ rw (finalizar_donde_este, a, b, c, d) refl
            ]
          ]
        ]
      ]

  pub finalizar_programa-Reparte :
      (sock pid codigo : ℤ) (s : Kernel σ φ)
      → Reparte s (finalizar_programa entorno sock pid codigo s)
  finalizar_programa-Reparte sock pid codigo s q = elim (Bool-cases (eqb_ℤ sock minus_one)) [
    | inl e ↦
        rw (e)
          (finalizar_donde_este-Reparte pid codigo (mensaje_a_consola_finalizo codigo sock s) q)
    | inr e ↦ rw (e) (finalizar_donde_este-Reparte pid codigo s q)
  ]

  avisar_en-MismasColas :
      (sock : ℤ) (nombre : List ℕ) (o : Option VarComp) (s : Kernel σ φ) {s' : Kernel σ φ}
      → avisar_en sock nombre o s ≡ some s'
      → MismasColas s s'
  avisar_en-MismasColas sock nombre none s e = cc
  avisar_en-MismasColas sock nombre (some sem) s {s'} e =
      let t =
        responder sock kc_signal_respuesta (pos 1) (record s {
          semaforos_comp = con_var (λ _. (signal_en sem).1) nombre s.semaforos_comp;
        }) in
      let mismo : despertar (signal_en sem).0 termino_espera t ≡ s' = cc in
      ap plan (sym mismo) ∙ despertar-MismasColas (signal_en sem).0 termino_espera t

  signal_semaforo-MismasColas :
      (pid sock : ℤ) (nombre : List ℕ) (s : Kernel σ φ) {s' : Kernel σ φ}
      → signal_semaforo pid sock nombre s ≡ some s'
      → MismasColas s s'
  unfolding signal_semaforo
  signal_semaforo-MismasColas pid sock nombre s e =
      avisar_en-MismasColas sock nombre
        (vars.list_find s.semaforos_comp (λ v. iguales v.nombre nombre))
        (escribir_pcb (λ p. record p { nombre_semaforo = nombre }) pid s) e

  alocado-Reparte :
      (i : ℕ) (pid : ℤ) (pudo : Bool) (s : Kernel σ φ) → Reparte s (alocado entorno i pid pudo s).0
  alocado-Reparte i pid true s q = refl
  alocado-Reparte i pid false s q =
      finalizar_programa-Reparte minus_one pid exit_code_error_limite_pagina s q

  lectura_de-Reparte :
      (sock : ℤ) (o : Option VarComp) (s : Kernel σ φ) → Reparte s (lectura_de sock o s)
  lectura_de-Reparte sock none s q = refl
  lectura_de-Reparte sock (some v) s q = refl

  escritura_de-Reparte :
      (sock : ℤ) (nombre : List ℕ) (valor : ℤ) (o : Option VarComp) (s : Kernel σ φ)
      → Reparte s (escritura_de sock nombre valor o s)
  escritura_de-Reparte sock nombre valor none s q = refl
  escritura_de-Reparte sock nombre valor (some v) s q = refl

  atender_evento-Reparte :
      (i : ℕ) (sock pid : ℤ) (evento : Evento) (s : Kernel σ φ)
      → SiHay (λ r. Reparte s r.0) (atender_evento entorno i sock pid evento s)
  unfolding atender_evento
  atender_evento-Reparte i sock pid finalizo_ejecucion s = a_exit-Reparte pid s
  atender_evento-Reparte i sock pid finalizo_quantum s = a_ready-Reparte pid s
  atender_evento-Reparte i sock pid pidio_abrir_archivo s = a_blocked-Reparte pid s
  atender_evento-Reparte i sock pid pidio_leer_archivo s = a_blocked-Reparte pid s
  atender_evento-Reparte i sock pid pidio_escribir_archivo s = a_blocked-Reparte pid s
  atender_evento-Reparte i sock pid pidio_cerrar_archivo s = a_blocked-Reparte pid s
  atender_evento-Reparte i sock pid pidio_borrar_archivo s = a_blocked-Reparte pid s
  atender_evento-Reparte i sock pid finalizo_con_error s =
      a_exit-Reparte pid (con_error exit_code_error_excepcion_memoria pid s)
  atender_evento-Reparte i sock pid finalizo_stackoverflow s =
      a_exit-Reparte pid (con_error exit_code_error_stackoverflow pid s)
  atender_evento-Reparte i sock pid (alocar espacio) s =
      let r = entorno.reservar_heap s.memoria (buscar s pid) espacio sock in
      alocado-Reparte i pid r.1.0 (
        escribir_pcb (λ _. r.0.1) pid
          (record s { memoria = r.0.0; enviados = r.1.1 ++ s.enviados }))
  atender_evento-Reparte i sock pid (liberar puntero) s = λ q. refl
  atender_evento-Reparte i sock pid (wait nombre) s = a_blocked-Reparte pid (
      escribir_pcb
        (λ p. record p { nombre_semaforo = nombre; operacion_es = operacion_wait_semaforo }) pid s)
  atender_evento-Reparte i sock pid (signal nombre) s =
      elim (Option-cases (signal_semaforo pid sock nombre s)) [
        | inl e ↦ rw (atender_evento, ◌>>=◌, e) tt
        | inr (s', e) ↦
            rw (atender_evento, ◌>>=◌, e)
              (MismasColas-Reparte s s' (signal_semaforo-MismasColas pid sock nombre s e))
      ]
  atender_evento-Reparte i sock pid (variable_lectura nombre) s =
      lectura_de-Reparte sock (vars.list_find s.variables_comp (λ v. iguales v.nombre nombre)) s
  atender_evento-Reparte i sock pid (variable_escritura nombre valor) s =
      escritura_de-Reparte sock nombre valor
        (vars.list_find s.variables_comp (λ v. iguales v.nombre nombre)) s
  atender_evento-Reparte i sock pid otro s = λ q. refl

  tras_evento-Reparte :
      (m : Mensaje) (i : ℕ) (pid : ℤ) (r : Kernel σ φ × Bool)
      → SiHay (Reparte r.0) (tras_evento entorno m i pid r)
  unfolding tras_evento
  tras_evento-Reparte m i pid (s, false) = λ q. refl
  tras_evento-Reparte m i pid (s, true) = elim (Option-cases (actualizar_pcb (buscar s pid) m)) [
    | inl e ↦ rw (tras_evento, ◌>>=◌, e) tt
    | inr (p, e) ↦ elim (Option-cases (com_leer_int m (codes "continua_activo"))) [
      | inl d ↦ rw (tras_evento, ◌>>=◌, e, d) tt
      | inr (c, d) ↦ rw (tras_evento, ◌>>=◌, e, d) (λ q. refl)
    ]
  ]

  module _ ⦃pcbs : Commons Pcb⦄ where
    -- A message of a CPU, whichever it is, loses no process and doubles none.
    pub atender_cpu-Reparte :
        (mensaje : Mensaje) (i : ℕ) (pid : ℤ) (evento : Evento) (s : Kernel σ φ) {s' : Kernel σ φ}
        → atender_cpu entorno mensaje i pid evento s ≡ some s'
        → Reparte s s'
    unfolding atender_cpu
    atender_cpu-Reparte mensaje i pid evento s {s'} e = subst (SiHay (Reparte s)) e atendido
      where
        atendido : SiHay (Reparte s) (atender_cpu entorno mensaje i pid evento s)
        atendido =
            let sock = (get_or s.cpus i cpu_nulo).sock in
            let a = atender_evento-Reparte i sock pid evento s in
            elim (Option-cases (pcbs.list_find s.programas (λ p. eqb_ℤ p.pid pid))) [
              | inl n ↦ rw (atender_cpu, n) (λ q. refl)
              | inr (p, n) ↦ elim (Option-cases (atender_evento entorno i sock pid evento s)) [
                | inl m ↦ rw (atender_cpu, n, ◌>>=◌, m) tt
                | inr (r, m) ↦
                    rw (atender_cpu, n, ◌>>=◌, m)
                      (SiHay-mapear (Reparte r.0) (Reparte s) (tras_evento entorno mensaje i pid r)
                        (λ u k q. k q ∙ subst (SiHay (λ t. Reparte s t.0)) m a q)
                        (tras_evento-Reparte mensaje i pid r))
              ]
            ]
