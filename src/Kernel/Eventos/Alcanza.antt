-- ===== src/Kernel/Eventos/Alcanza.antt =====
-- The main loop of src/kernel/kernel.c as a step relation: connections, messages, hang-ups, the commands of the
-- console and the updates of the system, in any order.
use tp_sisop_1c_2017_david.Prelude.{
  SiHay, minus_one, ◌%◌, ℕ, suc, ◌+◌, ◌^◌, ◌≤◌, ◌<◌, ℤ, pos, eqb_ℤ, eqb_ℤ_iff, Bool-cases, ◌≡◌,
  refl, sym, ap, ◌∙◌, subst, Option-cases, ◌>>=◌, some, List, [], ◌∷◌, inl, inr, Commons, arith,
}
use tp_sisop_1c_2017_david.Comunicacion.{Mensaje}
use tp_sisop_1c_2017_david.Kernel.Minify.{script_to_bloques}
use tp_sisop_1c_2017_david.Kernel.Planificacion.{
  Kernel, Pcb, Cpu, VarComp, Entorno, nuevos, finalizar_programa,
}
use tp_sisop_1c_2017_david.Kernel.Planificacion.Colas.{uno, cuenta, cuenta_total}
use tp_sisop_1c_2017_david.Kernel.Planificacion.Mover.{poner}
use tp_sisop_1c_2017_david.Kernel.Estado.{actualizar_estado_sistema}
use tp_sisop_1c_2017_david.Kernel.Estado.Conserva.{Plan, plan, actualizar_estado_sistema-Reparte}
use tp_sisop_1c_2017_david.Kernel.Eventos.{
  Evento, atender_cpu, nuevo_programa, nuevo_cpu, desconectar_cpu, modificar_grado_mult,
  finalizar_proceso_en_consola, exit_code_error_comando_finalizar,
}
use tp_sisop_1c_2017_david.Kernel.Eventos.Pasos.{finalizar_programa-Reparte, atender_cpu-Reparte}

-- The start: no process, and no PID given out.
abbrev pub plan_inicial : ℕ → Plan
plan_inicial grado = record {
  new = [];
  ready = [];
  exec = [];
  blocked = [];
  exit = [];
  procesos = 0;
  grado = grado;
}

module _ ⦃commons : Commons ℤ⦄ ⦃vars : Commons VarComp⦄ ⦃pcbs : Commons Pcb⦄
    ⦃lista_cpus : Commons Cpu⦄ {σ φ : Type 0} (entorno : Entorno σ φ) where
  -- The states that the loop reaches, with `numeroPid` and the processes that it created.
  pub data Alcanza : ℕ → List ℤ → Kernel σ φ → Type 0 where
    inicio : (grado : ℕ) (s : Kernel σ φ) → plan s ≡ plan_inicial grado → Alcanza 1 [] s
    programa :
        {n : ℕ} {creados : List ℤ} {s s' : Kernel σ φ} (quantum quantum_sleep : ℕ) (sock : ℤ)
        (script : List ℕ)
        → Alcanza n creados s
        → n < 2 ^ 31
        → nuevo_programa (pos n) quantum quantum_sleep sock script s ≡ some s'
        → Alcanza (suc n) (pos n ∷ creados) s'
    rechazado :
        {n : ℕ} {creados : List ℤ} {s : Kernel σ φ}
        → Alcanza n creados s
        → n < 2 ^ 31
        → Alcanza (suc n) creados s
    cpu :
        {n : ℕ} {creados : List ℤ} {s : Kernel σ φ} (sock : ℤ)
        → Alcanza n creados s
        → Alcanza n creados (nuevo_cpu sock s)
    mensaje_programa :
        {n : ℕ} {creados : List ℤ} {s : Kernel σ φ} (sock pid : ℤ)
        → Alcanza n creados s
        → Alcanza n creados
            (finalizar_programa entorno sock pid exit_code_error_comando_finalizar s)
    mensaje_cpu :
        {n : ℕ} {creados : List ℤ} {s s' : Kernel σ φ} (mensaje : Mensaje) (i : ℕ) (pid : ℤ)
        (evento : Evento)
        → Alcanza n creados s
        → atender_cpu entorno mensaje i pid evento s ≡ some s'
        → Alcanza n creados s'
    desconexion :
        {n : ℕ} {creados : List ℤ} {s : Kernel σ φ} (i : ℕ)
        → Alcanza n creados s
        → Alcanza n creados (desconectar_cpu i s)
    modifica_grado :
        {n : ℕ} {creados : List ℤ} {s : Kernel σ φ} (grado : ℕ)
        → Alcanza n creados s
        → Alcanza n creados (modificar_grado_mult entorno grado s)
    comando :
        {n : ℕ} {creados : List ℤ} {s : Kernel σ φ} (pid : ℤ)
        → Alcanza n creados s
        → Alcanza n creados (finalizar_proceso_en_consola entorno pid s)
    actualizar :
        {n : ℕ} {creados : List ℤ} {s : Kernel σ φ}
        → Alcanza n creados s
        → Alcanza n creados (actualizar_estado_sistema entorno s)

  agrega :
      (q : ℤ) (n quantum quantum_sleep : ℕ) (sock : ℤ) (script : List ℕ) (s : Kernel σ φ)
      → SiHay
          (λ t. cuenta_total q t ≡ cuenta_total q s + uno q (pos n))
          (nuevo_programa (pos n) quantum quantum_sleep sock script s)
  unfolding nuevo_programa
  agrega q n quantum quantum_sleep sock script s = elim (Option-cases (script_to_bloques script)) [
    | inl e ↦ rw (nuevo_programa, ◌>>=◌, e) tt
    | inr (is, e) ↦ rw (nuevo_programa, ◌>>=◌, e) ((poner nuevos s (pos n)).0 q)
  ]

  -- In every state that the loop reaches, a process stands in the five lists as often as it was created.
  Alcanza-cuenta :
      {n : ℕ} {creados : List ℤ} {s : Kernel σ φ} (q : ℤ)
      → Alcanza n creados s
      → cuenta_total q s ≡ cuenta q creados
  unfolding nuevo_cpu desconectar_cpu
  Alcanza-cuenta q (inicio grado s e) =
      ap
        (λ p.
          cuenta q p.new
          + cuenta q p.ready
          + cuenta q p.exec
          + cuenta q p.blocked
          + cuenta q p.exit)
        e
  Alcanza-cuenta q (programa {n} {creados} {s} {s'} quantum quantum_sleep sock script a h e) =
      let ih = Alcanza-cuenta q a in
      let agregado : cuenta_total q s' ≡ cuenta_total q s + uno q (pos n) =
        subst (SiHay (λ t. cuenta_total q t ≡ cuenta_total q s + uno q (pos n))) e
          (agrega q n quantum quantum_sleep sock script s) in
      omega (arith, ih, agregado)
  Alcanza-cuenta q (rechazado a h) = Alcanza-cuenta q a
  Alcanza-cuenta q (cpu sock a) = Alcanza-cuenta q a
  Alcanza-cuenta q (mensaje_programa {s = s} sock pid a) =
      finalizar_programa-Reparte entorno sock pid exit_code_error_comando_finalizar s q
      ∙ Alcanza-cuenta q a
  Alcanza-cuenta q (mensaje_cpu {s = s} m i pid evento a e) =
      atender_cpu-Reparte entorno m i pid evento s e q ∙ Alcanza-cuenta q a
  Alcanza-cuenta q (desconexion i a) = Alcanza-cuenta q a
  Alcanza-cuenta q (modifica_grado {s = s} g a) =
      actualizar_estado_sistema-Reparte entorno (record s { grado_multiprogramacion = g % 2 ^ 32 })
        q
      ∙ Alcanza-cuenta q a
  Alcanza-cuenta q (comando {s = s} pid a) =
      finalizar_programa-Reparte entorno minus_one pid exit_code_error_comando_finalizar s q
      ∙ Alcanza-cuenta q a
  Alcanza-cuenta q (actualizar {s = s} a) =
      actualizar_estado_sistema-Reparte entorno s q ∙ Alcanza-cuenta q a

  -- A PID is given out once.
  pids_nuevos :
      {n : ℕ} {creados : List ℤ} {s : Kernel σ φ} (k : ℕ)
      → Alcanza n creados s
      → n ≤ k
      → cuenta (pos k) creados ≡ 0
  pids_nuevos k (inicio grado s e) h = refl
  pids_nuevos k (programa {n} {creados} quantum quantum_sleep sock script a m e) h =
      let ih = pids_nuevos k a (omega arith) in
      elim (Bool-cases (eqb_ℤ (pos n) (pos k))) [
        | inl e ↦
            let mismo : pos n ≡ pos k = (eqb_ℤ_iff (pos n) (pos k)).0 e in
            let igual : n ≡ k = cc in omega arith
        | inr e ↦ rw (e) (omega (arith, ih))
      ]
  pids_nuevos k (rechazado a m) h = pids_nuevos k a (omega arith)
  pids_nuevos k (cpu sock a) h = pids_nuevos k a h
  pids_nuevos k (mensaje_programa sock pid a) h = pids_nuevos k a h
  pids_nuevos k (mensaje_cpu m i pid evento a e) h = pids_nuevos k a h
  pids_nuevos k (desconexion i a) h = pids_nuevos k a h
  pids_nuevos k (modifica_grado g a) h = pids_nuevos k a h
  pids_nuevos k (comando pid a) h = pids_nuevos k a h
  pids_nuevos k (actualizar a) h = pids_nuevos k a h

  creados-una_vez :
      {n : ℕ} {creados : List ℤ} {s : Kernel σ φ} (q : ℤ)
      → Alcanza n creados s
      → cuenta q creados ≤ 1
  creados-una_vez q (inicio grado s e) = omega arith
  creados-una_vez q (programa {n} {creados} quantum quantum_sleep sock script a m e) =
      let ih = creados-una_vez q a in
      elim (Bool-cases (eqb_ℤ (pos n) q)) [
        | inl e ↦
            let mismo : pos n ≡ q = (eqb_ℤ_iff (pos n) q).0 e in
            let nada : cuenta q creados ≡ 0 =
              ap (λ x. cuenta x creados) (sym mismo) ∙ pids_nuevos n a (omega arith) in
            rw (e) (omega (arith, nada))
        | inr e ↦ rw (e) (omega (arith, ih))
      ]
  creados-una_vez q (rechazado a m) = creados-una_vez q a
  creados-una_vez q (cpu sock a) = creados-una_vez q a
  creados-una_vez q (mensaje_programa sock pid a) = creados-una_vez q a
  creados-una_vez q (mensaje_cpu m i pid evento a e) = creados-una_vez q a
  creados-una_vez q (desconexion i a) = creados-una_vez q a
  creados-una_vez q (modifica_grado g a) = creados-una_vez q a
  creados-una_vez q (comando pid a) = creados-una_vez q a
  creados-una_vez q (actualizar a) = creados-una_vez q a

  -- In every state that the main loop reaches, by any sequence of connections, messages, hang-ups, console commands and updates
  -- with at most 2 ^ 31 - 1 PIDs given out, the five lists together hold each process that was created once
  -- and no other process.
  pub Alcanza-una_vez :
      {n : ℕ} {creados : List ℤ} {s : Kernel σ φ} (q : ℤ)
      → Alcanza n creados s
      → (cuenta_total q s ≡ cuenta q creados) × (cuenta_total q s ≤ 1)
  Alcanza-una_vez q a =
      let e = Alcanza-cuenta q a in let u = creados-una_vez q a in (e, omega (arith, e, u))
