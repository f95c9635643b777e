-- ===== src/Memoria/Datos/Conserva.antt =====
-- Which operations of src/memoria/memoria.c keep the cache coherent with the page table.
use mathlib.Core.Bool.{false≢true}
use tp_sisop_1c_2017_david.Prelude.{
  ℕ, ◌<◌, ℤ, pos, minus_one, eqb_ℤ, eqb_ℤ_iff, ◌≡◌, refl, sym, ap, ap₂, subst, ◌∙◌, ◌≢◌, inl, inr,
  Bool-cases, if◌then◌else◌, none, some, get_or, All, All-get_or, arith, Commons,
}
use tp_sisop_1c_2017_david.Memoria.Marco.Igualdad.{Otra}
use tp_sisop_1c_2017_david.Memoria.Cache.{
  entrada_libre, esta_la_pag_en_cache, eliminar_proceso_en_cache, sumar_veces_usada,
  cant_veces_pid_en_cache,
}
use tp_sisop_1c_2017_david.Memoria.Cache.Busqueda.{
  All-eliminar, All-crear, All-imp, eliminar_si_activa, esta_en_cache-some,
}
use tp_sisop_1c_2017_david.Memoria.Cache.Limite.{cant-eliminar, cant-crear}
use tp_sisop_1c_2017_david.Memoria.Estado.{
  Memoria, Config, estado_inicial, entradas_cache, bloques_del_espacio_adm,
}
use tp_sisop_1c_2017_david.Memoria.Paginas.{
  reservar_pagina, liberar_pagina, finalizar_proceso, exit_success,
}
use tp_sisop_1c_2017_david.Memoria.Paginas.Invariante.{ubicar}
use tp_sisop_1c_2017_david.Memoria.Paginas.Inicio.{estado_inicial-IsValid}
use tp_sisop_1c_2017_david.Memoria.Paginas.Reservar.{reservar_pagina_lem}
use tp_sisop_1c_2017_david.Memoria.Paginas.Liberar.{liberar_pagina_lem}
use tp_sisop_1c_2017_david.Memoria.Paginas.Finalizar.{finalizar_proceso_lem}
use tp_sisop_1c_2017_david.Memoria.Datos.{buscar_bloque}
use tp_sisop_1c_2017_david.Memoria.Datos.Coherencia.{
  Coherente, EsProceso, EnSuMarco, buscar-acierto,
}

-- The start is coherent: every cache entry is free.
pub estado_inicial-Coherente :
    (c : Config)
    → 0 < c.marco_size
    → bloques_del_espacio_adm c < c.marcos
    → 0 < c.cache_x_proc
    → Coherente (estado_inicial c)
estado_inicial-Coherente c h lugar p = record {
  valida = estado_inicial-IsValid c h lugar;
  en_su_marco = All-crear (EnSuMarco (estado_inicial c)) (entradas_cache c) (λ x. absurd (x refl));
  limite = λ q nq. omega (arith, cant-crear q (entradas_cache c) nq);
  positivo = p;
}

-- A page that is nowhere is another than one that is somewhere.
otra :
    (s : Memoria) (pid pag q g : ℤ) {k : ℕ}
    → ubicar s pid pag ≡ none
    → ubicar s q g ≡ some k
    → Otra pid pag q g
otra s pid pag q g vacia e = elim (Bool-cases (eqb_ℤ pid q)) [
  | inr n ↦ inl (λ x. false≢true (sym n ∙ (eqb_ℤ_iff pid q).1 x))
  | inl y ↦ inr λ x. let igual = (eqb_ℤ_iff pid q).0 y in cc (ap₂ (ubicar s) igual x)
]

module _ ⦃commons : Commons ℤ⦄ where
  -- `reservarPagina` of a page that the process does not hold keeps the cache coherent.
  pub reservar_pagina-Coherente :
      {s : Memoria} (pid pag : ℤ)
      → Coherente s
      → pid ≢ minus_one
      → ubicar s pid pag ≡ none
      → Coherente (reservar_pagina s pid pag).0
  reservar_pagina-Coherente {s} pid pag c np vacia =
      elim (reservar_pagina_lem pid pag c.valida np vacia) [
        | inl (llena, e) ↦ rw e c
        | inr (r, v, e) ↦ record {
          valida = v;
          en_su_marco = subst (All (EnSuMarco (reservar_pagina s pid pag).0)) (sym r.datos.1) (
              All-imp (EnSuMarco s) (EnSuMarco (reservar_pagina s pid pag).0) s.cache
                (λ e h en_uso.
                  let (nl, donde) = h en_uso in
                  (
                    nl,
                    r.otras e.pid e.num_pag nl (otra s pid pag e.pid e.num_pag vacia donde) ∙ donde,
                  ))
                c.en_su_marco);
          limite = λ q nq. rw (r.datos.1, r.datos.2) (c.limite q nq);
          positivo = rw r.datos.2 c.positivo;
        }
      ]

  -- `finalizarProceso` keeps the cache coherent: the entries of the process are cleared first.
  pub finalizar_proceso-Coherente :
      {s : Memoria} (pid : ℤ)
      → Coherente s
      → pid ≢ minus_one
      → (s' : Memoria) × (finalizar_proceso s pid ≡ some (s', exit_success))
        × Coherente s'
        × ((q : ℤ)
            → q ≢ pos 0
            → cant_veces_pid_en_cache q s'.cache
              ≡ (if eqb_ℤ q pid then 0 else cant_veces_pid_en_cache q s.cache))
  finalizar_proceso-Coherente {s} pid c np =
      let (s', e, r, v) = finalizar_proceso_lem pid c.valida np in
      let limpia : s'.cache ≡ eliminar_proceso_en_cache pid s.cache =
        r.datos.1 ∙ eliminar_si_activa pid s.cache in
      let cuenta = λ (q : ℤ) (nq : q ≢ pos 0).
        ap (cant_veces_pid_en_cache q) limpia ∙ cant-eliminar pid q s.cache nq in
      (
        s',
        e,
        record {
          valida = v;
          en_su_marco = subst (All (EnSuMarco s')) (sym limpia) (
              All-eliminar (EnSuMarco s) (EnSuMarco s') pid s.cache (λ x. absurd (x refl))
                (λ e h otro en_uso.
                  let (nl, donde) = h en_uso in (nl, r.otros e.pid e.num_pag nl otro ∙ donde))
                c.en_su_marco);
          limite = λ q nq. rw r.datos.2 (ground (arith, cuenta q nq, c.limite q nq));
          positivo = rw r.datos.2 c.positivo;
        },
        cuenta,
      )

-- `liberarPagina` does not clear the cache: where it held the page that is released, the page table has
-- the page no more, and the data operations still take it to its old frame.
pub liberar_pagina_deja_cache :
    {s : Memoria} (pid pag : ℤ) {i : ℕ}
    → Coherente s
    → EsProceso pid
    → ubicar s pid pag ≢ none
    → esta_la_pag_en_cache s.cache pid pag ≡ some i
    → (s' : Memoria) × (s'' : Memoria) × (liberar_pagina s pid pag ≡ some (s', exit_success))
      × (ubicar s' pid pag ≡ none)
      × (buscar_bloque s' pid pag ≡ some (ubicar s pid pag, s''))
liberar_pagina_deja_cache {s} pid pag {i} c np esta acierto =
    elim (liberar_pagina_lem pid pag c.valida np.1) [
      | inl (falta, e) ↦ absurd (esta falta)
      | inr (_, (s', e, l, v)) ↦
          let (li, ep, eg) = esta_en_cache-some s.cache pid pag acierto in
          let en = All-get_or (EnSuMarco s) entrada_libre s.cache i c.en_su_marco li in
          let igual : ubicar s pid pag ≡ some (get_or s.cache i entrada_libre).num_bloque =
            rw (← ep, ← eg) (en (λ x. np.0 (sym ep ∙ x))).1 in
          (
            s',
            record s' { cache = sumar_veces_usada i s'.cache },
            e,
            l.perdida,
            buscar-acierto s' pid pag {i = i}
                  (ap (λ es. esta_la_pag_en_cache es pid pag) l.datos.1 ∙ acierto)
                ∙ ap (λ b. some (b, record s' { cache = sumar_veces_usada i s'.cache }))
                    (ap (λ es. some (get_or es i entrada_libre).num_bloque) l.datos.1 ∙ sym igual),
          )
    ]
