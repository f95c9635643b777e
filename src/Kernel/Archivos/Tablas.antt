-- ===== src/Kernel/Archivos/Tablas.antt =====
-- A file that is opened and closed: the tables of src/kernel/kernel.c before and after.
use tp_sisop_1c_2017_david.Prelude.{
  ℕ, codes, subst, ◌<◌, true, false, ◌==◌, inl, inr, ◌≡◌, refl, sym, ap, ◌∙◌, All, Option,
  Option-cases, none, some, ◌>>=◌, List, [], ◌∷◌, ◌++◌, primero, sin_primero, Commons, arith,
}
use tp_sisop_1c_2017_david.Kernel.Planificacion.{Abierto, Pcb}
use tp_sisop_1c_2017_david.Kernel.Archivos.{
  Global, Archivos, global_de, con_global, abrir_uno, cerrar_uno, es_arch_buscado_global,
  es_arch_buscado, entrada_global, abrir_existente, cerrar_global, cerrar_abierto, cerrar_archivo,
}
use tp_sisop_1c_2017_david.Comunicacion.{iguales}
use tp_sisop_1c_2017_david.Kernel.Contexto.{actualizar_pcb}
use tp_sisop_1c_2017_david.Cpu.Contexto.{PcbActivo, o_guion, respuesta_al_kernel}
use tp_sisop_1c_2017_david.Contexto.Envio.{mensaje_con}
use tp_sisop_1c_2017_david.Contexto.Respuesta.{EsActivo, tras_cpu}
use tp_sisop_1c_2017_david.Contexto.Vuelta.{actualizar-responder}
use tp_sisop_1c_2017_david.Kernel.Archivos.Entradas.{
  EsTabla, EsTablaDePcb, cerrar-abrir_uno, con_global-vuelve, con_global-nuevo, global_de-nuevo,
  sin_primero-nadie, primero-nuevo, con_global-Escrito,
}

-- No entry has the path.
abbrev pub SinNombre : List ℕ → List Global → Type 0
SinNombre f = All (λ g. iguales g.file f ≡ false)

-- The entry of a file that is not open any more.
abbrev pub cerrada_de : ℕ → Pcb → Global
cerrada_de k p = record { ident = k; count_open = 0; file = p.direccion }

module _ ⦃globales : Commons Global⦄ where
  -- The entry of a file that some process has open.
  cerrar_conocida :
      (k : ℕ) (p q : Pcb) (g : Global) (gs : List Global)
      → EsTabla k gs
      → primero (es_arch_buscado_global p) gs ≡ some g
      → let t = con_global abrir_uno g.ident gs in
        cerrar_global g.ident q (global_de g.ident t) t ≡ some gs
  cerrar_conocida k p q g gs a e =
      let r = con_global-Escrito k p g gs a e in
      let abierta : ((cerrar_uno (abrir_uno r.entrada)).count_open == 0) ≡ false =
        ap (λ x. x.count_open == 0) (cerrar-abrir_uno r.entrada r.abierta.1)
        ∙ no_cero r.entrada.count_open r.abierta.0 in
      rw (r.leida, abierta) (ap some (con_global-vuelve k g.ident gs a))
    where
      no_cero : (n : ℕ) → 0 < n → (n == 0) ≡ false
      no_cero n h = ground arith

  -- The entry of a file that no process has open, closed by a process that names no entry.
  cerrar_nueva :
      (k : ℕ) (p q : Pcb) (gs : List Global)
      → SinNombre q.direccion gs
      → iguales p.direccion q.direccion ≡ false
      → EsTabla k gs
      → let t = gs ++ (record { ident = k; count_open = 1; file = p.direccion } ∷ []) in
        cerrar_global k q (global_de k t) t ≡ some (gs ++ (cerrada_de k p ∷ []))
  cerrar_nueva k p q gs otros otra a =
      let g : Global = record { ident = k; count_open = 1; file = p.direccion } in
      rw
        (
          global_de-nuevo k g gs a refl,
          con_global-nuevo k cerrar_uno g gs a refl,
          globales.list_remove_by_condition_lem,
        )
        (ap some (sin_primero-nadie (es_arch_buscado_global q) (cerrar_uno g) gs otros otra))

-- The global table after the file of a process was opened and closed: as before if it had the file.
abbrev pub queda : {ψ : Type 0} → Archivos ψ → Pcb → Option Global → List Global
queda a p none = a.tabla ++ (cerrada_de a.proximo p ∷ [])
queda a p (some g) = a.tabla

module _ ⦃globales : Commons Global⦄ ⦃abiertos : Commons Abierto⦄ {ψ : Type 0} where
  cerrar_entrada :
      (a : Archivos ψ) (p q : Pcb)
      → SinNombre q.direccion a.tabla
      → iguales p.direccion q.direccion ≡ false
      → EsTabla a.proximo a.tabla
      → let r = entrada_global p (globales.list_find a.tabla (es_arch_buscado_global p)) a in
        cerrar_global r.1 q (global_de r.1 r.0.tabla) r.0.tabla
        ≡ some (queda a p (primero (es_arch_buscado_global p) a.tabla))
  cerrar_entrada a p q otros otra ht =
      let l = globales.list_find_lem a.tabla (es_arch_buscado_global p) in
      elim (Option-cases (globales.list_find a.tabla (es_arch_buscado_global p))) [
        | inl e ↦
            let falta = sym l ∙ e in
            rw (e, falta, globales.list_add_lem) (cerrar_nueva a.proximo p q a.tabla otros otra ht)
        | inr (g, e) ↦
            let hay = sym l ∙ e in rw (e, hay) (cerrar_conocida a.proximo p q g a.tabla ht hay)
      ]

descriptor_libre :
    (n : ℕ) (xs : List Abierto) → EsTablaDePcb n xs → All (λ x. (x.file_descriptor == n) ≡ false) xs
descriptor_libre n [] a = tt
descriptor_libre n (x ∷ xs) a = (distintos x.file_descriptor n a.0, descriptor_libre n xs a.1)
  where
    distintos : (i j : ℕ) → i < j → (i == j) ≡ false
    distintos i j h = ground arith

module _ ⦃globales : Commons Global⦄ ⦃abiertos : Commons Abierto⦄ {ψ : Type 0} where
  -- The close of the descriptor that the process got last, whatever else its PCB has by then.
  cerrar_abierta :
      (basura : ℕ × ℕ) (a : Archivos ψ) (p q : Pcb)
      → EsTabla a.proximo a.tabla
      → EsTablaDePcb p.descriptor_next p.tabla_archivos
      → q.tabla_archivos ≡ (abrir_existente basura a p).1.tabla_archivos
      → q.descriptor ≡ p.descriptor_next
      → SinNombre q.direccion a.tabla
      → iguales p.direccion q.direccion ≡ false
      → (t : Archivos ψ × Pcb) × (◌≡◌ {A = Option (Archivos ψ × Pcb)}
          (cerrar_archivo (abrir_existente basura a p).0 q)
          (some t))
        × (t.0.tabla ≡ queda a p (primero (es_arch_buscado_global p) a.tabla))
        × (t.1.tabla_archivos ≡ p.tabla_archivos)
  unfolding abrir_existente cerrar_archivo
  cerrar_abierta basura a p q ht hp tabla descriptor otros otra =
      let e = entrada_global p (globales.list_find a.tabla (es_arch_buscado_global p)) a in
      let x : Abierto = record {
        file_descriptor = p.descriptor_next;
        permisos = [];
        global = e.1;
        lectura = basura.0;
        escritura = basura.1;
      } in
      let igual : (p.descriptor_next == q.descriptor) ≡ true = ground (arith, descriptor) in
      let libres =
        subst (λ n. All (λ y. (y.file_descriptor == n) ≡ false) p.tabla_archivos) (sym descriptor)
          (descriptor_libre p.descriptor_next p.tabla_archivos hp) in
      let n = primero-nuevo (es_arch_buscado q) x p.tabla_archivos libres igual in
      let agregado = tabla ∙ abiertos.list_add_lem p.tabla_archivos x in
      let hallado : abiertos.list_find q.tabla_archivos (es_arch_buscado q) ≡ some x =
        abiertos.list_find_lem q.tabla_archivos (es_arch_buscado q)
        ∙ ap (primero (es_arch_buscado q)) agregado
        ∙ n.0 in
      let quedan = abiertos.list_remove_by_condition q.tabla_archivos (es_arch_buscado q) in
      let final = queda a p (primero (es_arch_buscado_global p) a.tabla) in
      (
        (record e.0 { tabla = final }, record q { tabla_archivos = quedan }),
        ap (cerrar_abierto e.0 q) hallado
            ∙ ap
                (λ o.
                  o >>= λ l. some (record e.0 { tabla = l }, record q { tabla_archivos = quedan }))
                (cerrar_entrada a p q otros otra ht),
        refl,
        abiertos.list_remove_by_condition_lem q.tabla_archivos (es_arch_buscado q)
            ∙ ap (sin_primero (es_arch_buscado q)) agregado
            ∙ n.1,
      )

  -- A file that a process opens, and closes when it comes back from a CPU that set the descriptor and no path: the
  -- table of the process is as before. The global table is as before if it had the file; if not, it keeps the new
  -- entry, with no opening, since `actualizarPCB` left "-" for the path and the entry to free is looked for by it.
  -- The entries of the global table are open, fewer than 2 ^ 32 - 1 times, with numbers below the next one, and
  -- the descriptors of the process are below its next one; no file is called "-"; and the numbers, lists and texts
  -- of the process in the CPU fit in its message.
  pub abrir-cerrar_archivo :
      (basura : ℕ × ℕ) (a : Archivos ψ) (p : Pcb) (tipo : ℕ) (activo : PcbActivo)
      → EsTabla a.proximo a.tabla
      → EsTablaDePcb p.descriptor_next p.tabla_archivos
      → SinNombre (codes "-") a.tabla
      → iguales p.direccion (codes "-") ≡ false
      → EsActivo activo
      → activo.descriptor ≡ p.descriptor_next
      → activo.direccion ≡ []
      → let r = abrir_existente basura a p in
        (t : Archivos ψ × Pcb) × (◌≡◌ {A = Option (Archivos ψ × Pcb)}
          (actualizar_pcb r.1 (mensaje_con tipo (respuesta_al_kernel activo)) >>= λ q.
            cerrar_archivo r.0 q)
          (some t))
        × (t.0.tabla ≡ queda a p (primero (es_arch_buscado_global p) a.tabla))
        × (t.1.tabla_archivos ≡ p.tabla_archivos)
  abrir-cerrar_archivo basura a p tipo activo ht hp otros otra h descriptor direccion =
      let r = abrir_existente basura a p in
      let guion : o_guion activo.direccion ≡ codes "-" = ap o_guion direccion in
      let c =
        cerrar_abierta basura a p (tras_cpu r.1 activo) ht hp refl descriptor
          (subst (λ f. SinNombre f a.tabla) (sym guion) otros)
          (subst (λ f. iguales p.direccion f ≡ false) (sym guion) otra) in
      (
        c.0,
        ap (λ o. o >>= λ q. cerrar_archivo r.0 q) (actualizar-responder tipo activo h r.1) ∙ c.1,
        c.2,
        c.3,
      )
