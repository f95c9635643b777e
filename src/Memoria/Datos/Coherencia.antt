-- ===== src/Memoria/Datos/Coherencia.antt =====
-- The cache of src/memoria/memoria.c against the page table: on a coherent state it changes no answer.
use tp_sisop_1c_2017_david.Prelude.{
  ℕ, ◌<◌, ℤ, pos, minus_one, ◌≡◌, refl, sym, ap, ◌∙◌, ◌≢◌, inl, inr, Bool-cases, Option-cases,
  if◌then◌else◌, none, some, List, get_or, All, All-get_or,
}
use tp_sisop_1c_2017_david.Memoria.Cache.{
  Entrada, entrada_libre, cache_activada, esta_la_pag_en_cache, sumar_veces_usada, agregar_a_cache,
}
use tp_sisop_1c_2017_david.Memoria.Cache.Busqueda.{esta_en_cache-some, All-sumar, All-agregar}
use tp_sisop_1c_2017_david.Memoria.Cache.Limite.{
  DentroDelLimite, agregar-DentroDelLimite, cant-sumar,
}
use tp_sisop_1c_2017_david.Memoria.Estado.{Memoria}
use tp_sisop_1c_2017_david.Memoria.Paginas.Invariante.{IsValid, ubicar, verificar_pos_hash-ubicar}
use tp_sisop_1c_2017_david.Memoria.Datos.{buscar_bloque}

-- The process numbers apart from the marks for a free cache entry and a free frame.
abbrev pub EsProceso : ℤ → Type 0
EsProceso pid = (pid ≢ pos 0) × (pid ≢ minus_one)

-- An entry in use, which is one whose process is not 0, has the frame of its page.
abbrev pub EnSuMarco : Memoria → Entrada → Type 0
EnSuMarco s e = e.pid ≢ pos 0 → (e.pid ≢ minus_one) × (ubicar s e.pid e.num_pag ≡ some e.num_bloque)

pub record Coherente (s : Memoria) : Type 0 where
  pub valida : IsValid s
  pub en_su_marco : All (EnSuMarco s) s.cache
  pub limite : DentroDelLimite s.entradas_x_proc s.cache
  pub positivo : 0 < s.entradas_x_proc

-- The state differs in the cache at most.
pub record SoloCache (s s' : Memoria) : Type 0 where
  pub tabla : s'.tabla ≡ s.tabla
  pub bytes : s'.bytes ≡ s.bytes
  pub medidas :
      (s'.marcos ≡ s.marcos) × (s'.marco_size ≡ s.marco_size) × (s'.bloques_adm ≡ s.bloques_adm)

con_cache-IsValid : {s : Memoria} (c : List Entrada) → IsValid s → IsValid (record s { cache = c })
con_cache-IsValid c v = record {
  size = v.size;
  lugar = v.lugar;
  area = v.area;
  adm = v.adm;
  ocupados = v.ocupados;
  numerados = v.numerados;
  unicas = v.unicas;
}

-- The state once the page was found in frame `k` by the table.
abbrev pub con_pagina : Memoria → ℤ → ℤ → ℕ → Memoria
con_pagina s pid pag k =
    if cache_activada s.cache
    then record s { cache = agregar_a_cache s.entradas_x_proc s.cache pid pag k }
    else s

pub buscar-acierto :
    (s : Memoria) (pid pag : ℤ) {i : ℕ}
    → esta_la_pag_en_cache s.cache pid pag ≡ some i
    → buscar_bloque s pid pag
      ≡ some (
        some (get_or s.cache i entrada_libre).num_bloque,
        record s { cache = sumar_veces_usada i s.cache },
      )
unfolding buscar_bloque
buscar-acierto s pid pag e = rw (e, buscar_bloque)

module _ {s : Memoria} (pid pag : ℤ) (v : IsValid s)
    (fallo : esta_la_pag_en_cache s.cache pid pag ≡ none) where
  buscar-ninguno : ubicar s pid pag ≡ none → buscar_bloque s pid pag ≡ some (none, s)
  unfolding buscar_bloque
  buscar-ninguno e = rw (fallo, verificar_pos_hash-ubicar v pid pag, e, buscar_bloque)

  buscar-tabla :
      {k : ℕ}
      → ubicar s pid pag ≡ some k
      → buscar_bloque s pid pag ≡ some (some k, con_pagina s pid pag k)
  unfolding buscar_bloque
  buscar-tabla e = rw (fallo, verificar_pos_hash-ubicar v pid pag, e, buscar_bloque)

pub con_pagina-Coherente :
    {s : Memoria} (pid pag : ℤ) (k : ℕ)
    → Coherente s
    → EsProceso pid
    → ubicar s pid pag ≡ some k
    → SoloCache s (con_pagina s pid pag k) × Coherente (con_pagina s pid pag k)
con_pagina-Coherente {s} pid pag k c np e = elim (Bool-cases (cache_activada s.cache)) [
  | inl activa ↦ rw activa (
    record { tabla = refl; bytes = refl; medidas = (refl, refl, refl) },
    record {
      valida = con_cache-IsValid _ c.valida;
      en_su_marco =
          All-agregar (EnSuMarco s) s.entradas_x_proc s.cache pid pag k c.en_su_marco
            (λ h. (np.1, e));
      limite = agregar-DentroDelLimite s.entradas_x_proc s.cache pid pag k c.positivo c.limite;
      positivo = c.positivo;
    },
  )
  | inr inactiva ↦
      rw inactiva (record { tabla = refl; bytes = refl; medidas = (refl, refl, refl) }, c)
]

-- On a coherent state the head of the four data operations finds the frame that the page table has for a
-- page of a process, whose number is not 0 or -1, whether or not the cache holds it, and changes only the cache, which
-- stays coherent and within the limit.
pub buscar_bloque_lem :
    {s : Memoria} (pid pag : ℤ)
    → Coherente s
    → EsProceso pid
    → (s' : Memoria) × (buscar_bloque s pid pag ≡ some (ubicar s pid pag, s'))
      × SoloCache s s'
      × Coherente s'
buscar_bloque_lem {s} pid pag c np = elim (Option-cases (esta_la_pag_en_cache s.cache pid pag)) [
  | inl fallo ↦ elim (Option-cases (ubicar s pid pag)) [
    | inl e ↦ (
      s,
      buscar-ninguno pid pag c.valida fallo e ∙ ap (λ o. some (o, s)) (sym e),
      record { tabla = refl; bytes = refl; medidas = (refl, refl, refl) },
      c,
    )
    | inr (k, e) ↦
        let (solo, c') = con_pagina-Coherente pid pag k c np e in
        (
          con_pagina s pid pag k,
          buscar-tabla pid pag c.valida fallo e
              ∙ ap (λ o. some (o, con_pagina s pid pag k)) (sym e),
          solo,
          c',
        )
  ]
  | inr (i, acierto) ↦
      let (l, ep, eg) = esta_en_cache-some s.cache pid pag acierto in
      let en = All-get_or (EnSuMarco s) entrada_libre s.cache i c.en_su_marco l in
      let igual : ubicar s pid pag ≡ some (get_or s.cache i entrada_libre).num_bloque =
        rw (← ep, ← eg) (en (λ x. np.0 (sym ep ∙ x))).1 in
      let s' : Memoria = record s { cache = sumar_veces_usada i s.cache } in
      (
        s',
        buscar-acierto s pid pag acierto ∙ ap (λ o. some (o, s')) (sym igual),
        record { tabla = refl; bytes = refl; medidas = (refl, refl, refl) },
        record {
          valida = con_cache-IsValid _ c.valida;
          en_su_marco =
              All-sumar (EnSuMarco s) (λ h. absurd (h refl)) i s.cache (λ e x. x) c.en_su_marco;
          limite = λ q nq. rw (cant-sumar q i s.cache) (c.limite q nq);
          positivo = c.positivo;
        },
      )
]
