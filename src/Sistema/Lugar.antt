-- ===== src/Sistema/Lugar.antt =====
-- The room that the memory server of src/memoria/memoria.c has for the pages of a process, and one page more.
use tp_sisop_1c_2017_david.Prelude.{
  ℕ, drop, get_or, get_or-drop, false, suc, ◌+◌, ◌-◌, ◌≤◌, ◌<◌, ℤ, pos, minus_one, Bool, true, ◌≡◌,
  ◌≢◌, sym, ap, ◌∙◌, Option-cases, none, some, List, length, length-drop, take, take-append-drop,
  inl, inr, Commons, arith,
}
use tp_sisop_1c_2017_david.Memoria.Marco.{Marco, es_libre, contar, marco_libre, buscar_desde}
use tp_sisop_1c_2017_david.Memoria.Marco.Busqueda.{
  bit, contar_of_buscar-none, contar-append, contar-take-set, buscar-take,
}
use tp_sisop_1c_2017_david.Memoria.Marco.Igualdad.{es_pagina_self, es_pagina-Otra}
use tp_sisop_1c_2017_david.Memoria.Estado.{Memoria}
use tp_sisop_1c_2017_david.Memoria.Paginas.{bloque}
use tp_sisop_1c_2017_david.Memoria.Paginas.Invariante.{
  IsValid, ubicar, ubicar_inj, de_procesos, en_procesos, buscar_libre-de_procesos, nueva,
  de_procesos-ocupar,
}
use tp_sisop_1c_2017_david.Memoria.Paginas.Reservar.{
  reservada, reservar-some, reservada-IsValid, reservada-ubicar, reservada-Reservada,
}
use tp_sisop_1c_2017_david.Memoria.Paginas.Guardar.{Guardada, consultar_pagina_lem}
use tp_sisop_1c_2017_david.Sistema.{
  atender_guardar, atender_consulta, atender_reserva, pagina_leida,
}
use tp_sisop_1c_2017_david.Sistema.Heap.{
  consulta_en, guardar-Escrita, Guardada-ubicar, consulta-escrita, consulta-otra,
}

-- The free frames whose blocks lie inside the allocation.
abbrev pub libres_dentro : Memoria → ℕ
libres_dentro s = contar es_libre (take (s.marcos - s.bloques_adm - s.bloques_adm) (de_procesos s))

-- Room for `n` more pages of a process, of which none is there from page `k` on.
pub record HayLugar (tam n : ℕ) (pid : ℤ) (k : ℕ) (s : Memoria) : Type 0 where
  pub valida : IsValid s
  pub marco : s.marco_size ≡ tam
  pub proceso : pid ≢ minus_one
  pub faltan : (j : ℕ) → k ≤ j → ubicar s pid (pos j) ≡ none
  pub hay : n ≤ libres_dentro s

consulta_falta :
    {s : Memoria} (pid : ℤ) (k : ℕ)
    → IsValid s
    → ubicar s pid (pos k) ≡ none
    → atender_consulta (some s) pid k ≡ pagina_leida s (some minus_one)
consulta_falta {s} pid k v e =
    ap (pagina_leida s) (consultar_pagina_lem pid (pos k) v ∙ ap (λ o. some (bloque o)) e)

distintas : (j k : ℕ) → j < k → pos j ≢ pos k
distintas j k h e = let mismo : j ≡ k = cc in omega (arith, mismo)

contar-take_le :
    (test : Marco → Bool) (c : ℕ) (ms : List Marco) → contar test (take c ms) ≤ contar test ms
contar-take_le test c ms =
    omega
      (arith, contar-append test (take c ms) (drop c ms), ap (contar test) (take-append-drop c ms))

-- The frame that the search finds where there is room.
record Hallado (s : Memoria) : Type 0 where
  i : ℕ
  libre : buscar_desde es_libre s.bloques_adm (de_procesos s) ≡ some i
  dentro : i + s.bloques_adm < s.marcos
  lo : s.bloques_adm ≤ i
  hi : i < s.marcos
  vacio : es_libre (get_or s.tabla i (marco_libre 0)) ≡ true

hallar : {s : Memoria} → IsValid s → 0 < libres_dentro s → Hallado s
hallar {s} v h =
    let c : ℕ = s.marcos - s.bloques_adm - s.bloques_adm in
    elim (Option-cases (buscar_desde es_libre s.bloques_adm (de_procesos s))) [
      | inl e ↦ absurd (
          omega (
            arith,
            h,
            contar_of_buscar-none es_libre s.bloques_adm (de_procesos s) e,
            contar-take_le es_libre c (de_procesos s),
          ))
      | inr (i, e) ↦
          let p = en_procesos v es_libre e in
          let menor = buscar-take es_libre c s.bloques_adm i (de_procesos s) e h in
          record {
            i = i;
            libre = e;
            dentro = omega (arith, menor, p.0);
            lo = p.0;
            hi = p.1;
            vacio = p.2;
          }
    ]

-- A page more: it is granted and saved, the earlier pages are read as before, and there is room for one less.
pub record Agregada ⦃commons : Commons ℤ⦄ (tam n : ℕ) (pid : ℤ) (k : ℕ) (b : List ℕ) (s : Memoria)
    : Type 0 where
  pub memoria : Memoria
  pub concedida : ◌≡◌ {A = Bool × (ℤ × ℕ)} (atender_reserva (some s) pid k).1 (true, (pos 0, tam))
  pub guardada : atender_guardar (atender_reserva (some s) pid k).0 pid k b ≡ some memoria
  pub leida : atender_consulta (some memoria) pid k ≡ b
  pub previas :
      (j : ℕ) → j < k → atender_consulta (some memoria) pid j ≡ atender_consulta (some s) pid j
  pub lugar : HayLugar tam n pid (k + 1) memoria

module _ ⦃commons : Commons ℤ⦄ {s : Memoria} (tam n : ℕ) (pid : ℤ) (k : ℕ) (b : List ℕ)
    (l : HayLugar tam (suc n) pid k s) (h : Hallado s) where
  abbrev tras : Memoria
  tras = reservada s pid (pos k) h.i

  falta : ubicar s pid (pos k) ≡ none
  falta = l.faltan k (omega arith)

  tras-IsValid : IsValid tras
  tras-IsValid = reservada-IsValid pid (pos k) l.valida l.proceso h.libre falta

  -- Another page of the process stays where it was.
  tras-otra : (j : ℕ) → j ≢ k → ubicar tras pid (pos j) ≡ ubicar s pid (pos j)
  tras-otra j otra =
      (reservada-Reservada pid (pos k) l.valida l.proceso h.libre falta).otras pid (pos j) l.proceso
        (inr (λ e. otra cc))

  tras-ubicar : ubicar tras pid (pos k) ≡ some h.i
  tras-ubicar = reservada-ubicar pid (pos k) l.valida l.proceso h.libre falta

  tras-libres : libres_dentro tras + 1 ≡ libres_dentro s
  tras-libres =
      let c : ℕ = s.marcos - s.bloques_adm - s.bloques_adm in
      let j : ℕ = h.i - s.bloques_adm in
      let v = l.valida in
      let nuevo = nueva v pid (pos k) h.i h.lo h.hi in
      let cuenta =
        contar-take-set es_libre (marco_libre 0) nuevo c j (de_procesos s)
          (omega (arith, h.dentro, h.lo))
          (omega (arith, v.size, length-drop s.bloques_adm s.tabla, h.hi, h.lo)) in
      let era : es_libre (get_or (de_procesos s) j (marco_libre 0)) ≡ true =
        ap es_libre (get_or-drop s.bloques_adm j h.i s.tabla (marco_libre 0) (omega (arith, h.lo)))
        ∙ h.vacio in
      let es : es_libre nuevo ≡ false =
        es_pagina-Otra pid (pos k) minus_one minus_one nuevo
          (es_pagina_self pid (pos k) nuevo.frame) (inl l.proceso) in
      let donde =
        ap (λ t. contar es_libre (take c t)) (de_procesos-ocupar v pid (pos k) h.i h.lo h.hi) in
      omega (arith, donde, cuenta, ap bit era, ap bit es)

  dar_paso : 0 < tam → length b ≡ tam → Agregada tam n pid k b s
  dar_paso positivo largo =
      let v = l.valida in
      let marco : tam ≡ s.marco_size = sym l.marco in
      let e = reservar-some s pid (pos k) (buscar_libre-de_procesos v ∙ h.libre) in
      let w =
        guardar-Escrita pid k h.i b tras-IsValid (omega (arith, marco)) (largo ∙ marco) tras-ubicar
          h.dentro in
      record {
        memoria = w.memoria;
        concedida =
            ap (λ r. (true, (pos r.1, s.marco_size))) e ∙ ap (λ t. (true, (pos 0, t))) l.marco;
        guardada = ap (λ r. atender_guardar (some r.0) pid k b) e ∙ w.guardada;
        leida = consulta-escrita pid k h.i b (largo ∙ marco) tras-ubicar w.efecto;
        previas = previa w.efecto;
        lugar = record {
          valida = w.efecto.valida;
          marco = ap (λ t. t.marco_size) w.efecto.resto ∙ l.marco;
          proceso = l.proceso;
          faltan = λ j m.
              Guardada-ubicar pid j h.i b w.efecto
              ∙ tras-otra j (λ z. omega (arith, z))
              ∙ l.faltan j (omega arith);
          hay = omega (arith, l.hay, tras-libres, ap libres_dentro w.efecto.resto);
        };
      }
    where
      previa :
          {s' : Memoria}
          → Guardada tras h.i b s'
          → (j : ℕ) → j < k
          → atender_consulta (some s') pid j ≡ atender_consulta (some s) pid j
      previa {s'} g j menor =
          let igual = tras-otra j (λ z. omega (arith, z)) in
          elim (Option-cases (ubicar s pid (pos j))) [
            | inl nada ↦
                consulta_falta pid j g.valida (Guardada-ubicar pid j h.i b g ∙ igual ∙ nada)
                ∙ sym (consulta_falta pid j l.valida nada)
            | inr (i', si) ↦
                let otro : i' ≢ h.i = λ z.
                  distintas j k menor
                    (ubicar_inj tras-IsValid pid (pos j) pid (pos k) (igual ∙ si ∙ ap some z)
                      tras-ubicar).1 in
                consulta-otra pid j h.i i' b tras-IsValid (igual ∙ si) otro g
                ∙ consulta_en pid j tras-IsValid (igual ∙ si)
                ∙ sym (consulta_en pid j l.valida si)
          ]

pub paso :
    ⦃commons : Commons ℤ⦄ {s : Memoria} (tam n : ℕ) (pid : ℤ) (k : ℕ) (b : List ℕ)
    → HayLugar tam (suc n) pid k s
    → 0 < tam
    → length b ≡ tam
    → Agregada tam n pid k b s
paso tam n pid k b l positivo largo =
    dar_paso tam n pid k b l (hallar l.valida (omega (arith, l.hay))) positivo largo
