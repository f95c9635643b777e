-- ===== src/Kernel/Estado/Despacho.antt =====
-- The loop over the CPUs of actualizarEstadoSistema in src/kernel/kernel.c.
use tp_sisop_1c_2017_david.Prelude.{
  ℤ, pos, eqb_ℤ, eqb_ℤ_iff, true, false, Bool-cases, ◌≡◌, ◌≢◌, refl, sym, ap, subst, ◌∙◌, ◌⊎◌,
  Option-cases, none, some, List, [], ◌∷◌, ◌++◌, append_assoc, append-nil, inl, inr, All, get_elem?,
  sin_indice, Commons, length,
}
use tp_sisop_1c_2017_david.Kernel.Planificacion.{
  Kernel, Pcb, Cpu, VarComp, Envio, Entorno, pcb_de, con_pcb,
}
use tp_sisop_1c_2017_david.Kernel.Contexto.{campos_contexto, enviado}
use tp_sisop_1c_2017_david.Kernel.Estado.{
  ck_enviar_contexto, revisar_bloqueados, admitir_nuevos, despachar, actualizar_estado_sistema,
}
use tp_sisop_1c_2017_david.Kernel.Estado.Conserva.{despachado}

-- A CPU that can take no process.
abbrev pub Ocupada : Cpu → Type 0
Ocupada cpu = (cpu.libre ≡ false) ⊎ (cpu.activo ≡ pos 0)

-- The messages sent, the last one first, after those of the list.
abbrev pub tras_envios : List Envio → List Envio → List Envio
tras_envios [] l = l
tras_envios (m ∷ ms) l = tras_envios ms (m ∷ l)

-- The message with the PCB of a process for a CPU, for the PCBs at that time.
abbrev pub contexto_para : {σ φ : Type 0} → Entorno σ φ → Cpu → List Pcb → ℤ → Envio
contexto_para entorno cpu pcbs pid = record {
  sock = cpu.sock;
  tipo = ck_enviar_contexto;
  campos = campos_contexto entorno.algoritmo entorno.stack_max_size (pcb_de pcbs pid);
}

-- Processes given to CPUs: the PCBs and the CPUs before, the processes and the messages in order, and the CPUs
-- and the PCBs after. A CPU that is passed over can take no process, or there is none left.
pub data Reparto {σ φ : Type 0} (entorno : Entorno σ φ)
    : List Pcb → List Cpu → List ℤ → List Envio → List Cpu → List Pcb → Type 0 where
  fin : {pcbs : List Pcb} → Reparto entorno pcbs [] [] [] [] pcbs
  pasa_de_largo :
      {pcbs pcbs' : List Pcb} {cpu : Cpu} {cpus cpus' : List Cpu} {pids : List ℤ} {ms : List Envio}
      → Ocupada cpu ⊎ (pids ≡ [])
      → Reparto entorno pcbs cpus pids ms cpus' pcbs'
      → Reparto entorno pcbs (cpu ∷ cpus) pids ms (cpu ∷ cpus') pcbs'
  toma :
      {pcbs pcbs' : List Pcb} {cpu : Cpu} {cpus cpus' : List Cpu} {pid : ℤ} {pids : List ℤ}
      {ms : List Envio}
      → cpu.libre ≡ true
      → cpu.activo ≢ pos 0
      → Reparto entorno (con_pcb enviado pid pcbs) cpus pids ms cpus' pcbs'
      → Reparto entorno pcbs
          (cpu ∷ cpus)
          (pid ∷ pids)
          (contexto_para entorno cpu pcbs pid ∷ ms)
          (record cpu { libre = false } ∷ cpus')
          pcbs'

-- The processes that left for the CPUs: from the head of the ready list, in its order, one to a CPU, until the
-- list is empty or no CPU is left.
pub record Despacho {σ φ : Type 0} (entorno : Entorno σ φ) (cpus : List Cpu) (s : Kernel σ φ)
    (cpus' : List Cpu) (s' : Kernel σ φ) : Type 0 where
  pub despachados : List ℤ
  pub mensajes : List Envio
  pub orden : s.ready ≡ despachados ++ s'.ready
  pub ejecutan : s'.exec ≡ s.exec ++ despachados
  pub mandados : s'.enviados ≡ tras_envios mensajes s.enviados
  pub reparto : Reparto entorno s.programas cpus despachados mensajes cpus' s'.programas
  pub trabaja : (s'.ready ≡ []) ⊎ All Ocupada cpus'

sin_primero_lem : (xs : List ℤ) (p : ℤ) → get_elem? xs 0 ≡ some p → xs ≡ p ∷ sin_indice xs 0
sin_primero_lem [] p e = cc
sin_primero_lem (x ∷ xs) p e = cc

sin_nadie : (xs : List ℤ) → get_elem? xs 0 ≡ none → xs ≡ []
sin_nadie [] e = refl
sin_nadie (x ∷ xs) e = cc

append-nil_partes : (xs ys : List ℤ) → xs ++ ys ≡ [] → (xs ≡ []) × (ys ≡ [])
append-nil_partes [] ys e = (refl, e)
append-nil_partes (x ∷ xs) ys e = cc

module _ {σ φ : Type 0} (entorno : Entorno σ φ) where
  -- A CPU that takes no process, before the others.
  salteada :
      (cpu : Cpu) {cpus cpus' : List Cpu} {s s' : Kernel σ φ}
      → Ocupada cpu ⊎ (s.ready ≡ [])
      → Despacho entorno cpus s cpus' s'
      → Despacho entorno (cpu ∷ cpus) s (cpu ∷ cpus') s'
  salteada cpu {s = s} {s' = s'} o d = record {
    despachados = d.despachados;
    mensajes = d.mensajes;
    orden = d.orden;
    ejecutan = d.ejecutan;
    mandados = d.mandados;
    reparto = pasa_de_largo causa d.reparto;
    trabaja = elim d.trabaja [
      | inl vacia ↦ inl vacia
      | inr resto ↦ elim o [ inl ocupada ↦ inr (ocupada, resto) | inr nadie ↦ inl (nada nadie).1 ]
    ];
  }
    where
      nada : s.ready ≡ [] → (d.despachados ≡ []) × (s'.ready ≡ [])
      nada nadie = append-nil_partes d.despachados s'.ready (sym d.orden ∙ nadie)

      causa : Ocupada cpu ⊎ (d.despachados ≡ [])
      causa = elim o [ inl ocupada ↦ inl ocupada | inr nadie ↦ inr (nada nadie).0 ]

module _ ⦃commons : Commons ℤ⦄ ⦃vars : Commons VarComp⦄ {σ φ : Type 0} (entorno : Entorno σ φ) where
  -- A CPU that takes the process at the head.
  ocupada :
      (pid : ℤ) (cpu : Cpu) {cpus cpus' : List Cpu} (s : Kernel σ φ) {s' : Kernel σ φ}
      → cpu.libre ≡ true
      → eqb_ℤ cpu.activo (pos 0) ≡ false
      → get_elem? s.ready 0 ≡ some pid
      → Despacho entorno cpus (despachado entorno pid cpu s) cpus' s'
      → Despacho entorno (cpu ∷ cpus) s (record cpu { libre = false } ∷ cpus') s'
  unfolding despachado
  ocupada pid cpu {cpus' = cpus'} s {s'} vacante activo e d = record {
    despachados = pid ∷ d.despachados;
    mensajes = contexto_para entorno cpu s.programas pid ∷ d.mensajes;
    orden =
        sin_primero_lem s.ready pid e
        ∙ ap (λ l. pid ∷ l) (sym (commons.list_remove_lem s.ready 0) ∙ d.orden);
    ejecutan =
        d.ejecutan
        ∙ ap (λ l. l ++ d.despachados) (commons.list_add_lem s.exec pid)
        ∙ append_assoc s.exec (pid ∷ []) d.despachados;
    mandados = d.mandados;
    reparto = toma vacante (λ z. let si = (eqb_ℤ_iff cpu.activo (pos 0)).1 z in cc) d.reparto;
    trabaja = elim d.trabaja [ inl vacia ↦ inl vacia | inr resto ↦ inr (inl refl, resto) ];
  }

  -- The four ways that the loop goes on at a CPU.
  module _ (cpu : Cpu) (cpus : List Cpu) (s : Kernel σ φ) where
    abbrev saltea : List Cpu × Kernel σ φ
    saltea = let r = despachar entorno cpus s in (cpu ∷ r.0, r.1)

    saltea_libre :
        cpu.libre ≡ false
        → ◌≡◌ {A = List Cpu × Kernel σ φ} (despachar entorno (cpu ∷ cpus) s) saltea
    unfolding despachar
    saltea_libre e = simp (despachar, e) refl

    saltea_activo :
        cpu.libre ≡ true
        → eqb_ℤ cpu.activo (pos 0) ≡ true
        → ◌≡◌ {A = List Cpu × Kernel σ φ} (despachar entorno (cpu ∷ cpus) s) saltea
    unfolding despachar
    saltea_activo e f = simp (despachar, e, f) refl

    saltea_listos :
        cpu.libre ≡ true
        → eqb_ℤ cpu.activo (pos 0) ≡ false
        → commons.list_get s.ready 0 ≡ none
        → ◌≡◌ {A = List Cpu × Kernel σ φ} (despachar entorno (cpu ∷ cpus) s) saltea
    unfolding despachar
    saltea_listos e f g = simp (despachar, e, f, g) refl

    toma_listo :
        (pid : ℤ)
        → cpu.libre ≡ true
        → eqb_ℤ cpu.activo (pos 0) ≡ false
        → commons.list_get s.ready 0 ≡ some pid
        → let r = despachar entorno cpus (despachado entorno pid cpu s) in
          ◌≡◌ {A = List Cpu × Kernel σ φ}
            (despachar entorno (cpu ∷ cpus) s)
            (record cpu { libre = false } ∷ r.0, r.1)
    unfolding despachar despachado
    toma_listo pid e f g = simp (despachar, e, f, g) refl

  -- The loop over the CPUs sends the processes at the head of the ready list, in its order, one to each CPU that
  -- is active and free, which is then no longer free, by a message to its socket with the PCB of the process, in
  -- that order, and moves them to the running list. A CPU is passed over only if it is not active or not free, or
  -- no process is left; it ends with an empty ready list or with no CPU that is active and free. Of the PCBs only
  -- those that were sent change, by what `enviarPCBAlCPU` resets.
  pub despachar-Despacho :
      (cpus : List Cpu) (s : Kernel σ φ)
      → Despacho entorno cpus s (despachar entorno cpus s).0 (despachar entorno cpus s).1
  unfolding despachar despachado
  despachar-Despacho [] s = record {
    despachados = [];
    mensajes = [];
    orden = refl;
    ejecutan = sym (append-nil s.exec);
    mandados = refl;
    reparto = fin;
    trabaja = inr tt;
  }
  despachar-Despacho (cpu ∷ cpus) s =
      let r = despachar entorno cpus s in
      let sigue : Ocupada cpu ⊎ (s.ready ≡ []) → Despacho entorno (cpu ∷ cpus) s (cpu ∷ r.0) r.1 =
        λ o. salteada entorno cpu o (despachar-Despacho cpus s) in
      elim (Bool-cases cpu.libre) [
        | inr e ↦ de (saltea_libre cpu cpus s e) (sigue (inl (inl e)))
        | inl e ↦ elim (Bool-cases (eqb_ℤ cpu.activo (pos 0))) [
          | inl f ↦
              de (saltea_activo cpu cpus s e f)
                (sigue (inl (inr ((eqb_ℤ_iff cpu.activo (pos 0)).0 f))))
          | inr f ↦ elim (Option-cases (commons.list_get s.ready 0)) [
            | inl g ↦
                de (saltea_listos cpu cpus s e f g)
                  (sigue (inr (sin_nadie s.ready (sym (commons.list_get_lem s.ready 0) ∙ g))))
            | inr (pid, g) ↦ de (toma_listo cpu cpus s pid e f g) (
                ocupada pid cpu s e f (sym (commons.list_get_lem s.ready 0) ∙ g)
                  (despachar-Despacho cpus (despachado entorno pid cpu s)))
          ]
        ]
      ]
    where
      de :
          {r r' : List Cpu × Kernel σ φ}
          → r ≡ r'
          → Despacho entorno (cpu ∷ cpus) s r'.0 r'.1
          → Despacho entorno (cpu ∷ cpus) s r.0 r.1
      de e d = subst (λ t. Despacho entorno (cpu ∷ cpus) s t.0 t.1) (sym e) d

  -- After `actualizarEstadoSistema` no process is ready, or no CPU is both active and free.
  pub actualizar_estado_sistema-trabaja :
      (s : Kernel σ φ)
      → ((actualizar_estado_sistema entorno s).ready ≡ [])
        ⊎ All Ocupada (actualizar_estado_sistema entorno s).cpus
  unfolding actualizar_estado_sistema
  actualizar_estado_sistema-trabaja s =
      let t = revisar_bloqueados entorno (length s.blocked) 0 s in
      let u = admitir_nuevos entorno (length t.new) 0 t in (despachar-Despacho u.cpus u).trabaja
