-- ===== src/Cpu/Llamadas/Saltos.antt =====
-- What the jumps of src/cpu/cpu.c leave of the stack.
use tp_sisop_1c_2017_david.Prelude.{
  SiHay-mapear, if◌then◌else◌, take, entero, ℕ, suc, ◌==◌, ◌&&◌, ltb, ◌≡◌, refl, ◌∙◌, subst, ℤ, pos,
  minus_one, eqb_ℤ, Bool, true, false, Bool-cases, inl, inr, Option, Option-cases, none, some,
  ◌>>=◌, List, [], ◌∷◌, ◌++◌, length, codes, Commons, SiHay, SiHay-bind,
}
use tp_sisop_1c_2017_david.Comunicacion.{Mensaje, com_leer_int, com_leer_string}
use tp_sisop_1c_2017_david.Contexto.{Etiqueta, Codigo}
use tp_sisop_1c_2017_david.Cpu.Contexto.{PcbActivo}
use tp_sisop_1c_2017_david.Cpu.Llamadas.{
  Ejecucion, Servicios, texto_recibido, pedir_a_memoria_string, buscar_sentencia, buscar_etiqueta,
  buscar_nombre, villereada, ir_a, ir_a_funcion, pedido_de_texto, mc_dato_respuesta, ejecutando,
}

-- What a jump leaves as it was.
abbrev pub MismaPila : PcbActivo → PcbActivo → Type 0
MismaPila p q =
    (q.indice_stack ≡ p.indice_stack)
    × (q.stack_level ≡ p.stack_level)
    × (q.stack_pointer ≡ p.stack_pointer)
    × (q.tam_pagina ≡ p.tam_pagina)

module _ (servicios : Servicios) where
  texto_recibido-MismaPila :
      (m : Mensaje) (e : Ejecucion)
      → SiHay (λ r. MismaPila e.pcb r.0.pcb) (texto_recibido servicios m e)
  unfolding texto_recibido
  texto_recibido-MismaPila m e = elim (Option-cases (com_leer_int m (codes "resultadoLectura"))) [
    | inl n ↦ rw (texto_recibido, ◌>>=◌, n) tt
    | inr (l, n) ↦ elim (Bool-cases (eqb_ℤ l (pos 1))) [
      | inr f ↦ rw (texto_recibido, ◌>>=◌, n, f) (refl, refl, refl, refl)
      | inl f ↦ elim (Option-cases (com_leer_string m (codes "buffer"))) [
        | inl d ↦ rw (texto_recibido, ◌>>=◌, n, f, d) tt
        | inr (t, d) ↦ rw (texto_recibido, ◌>>=◌, n, f, d) (refl, refl, refl, refl)
      ]
    ]
  ]

  pedir-MismaPila :
      (c : Codigo) (e : Ejecucion)
      → SiHay (λ r. MismaPila e.pcb r.0.pcb) (pedir_a_memoria_string servicios c e)
  unfolding pedir_a_memoria_string
  pedir-MismaPila c e =
      let m = servicios.dato (pedido_de_texto e.pcb c) in
      elim (Bool-cases (m.tipo == mc_dato_respuesta)) [
        | inr f ↦ rw (pedir_a_memoria_string, f) (refl, refl, refl, refl)
        | inl f ↦ elim (Bool-cases (m.len == 0)) [
          | inl g ↦ rw (pedir_a_memoria_string, f, g) (refl, refl, refl, refl)
          | inr g ↦ rw (pedir_a_memoria_string, f, g) (texto_recibido-MismaPila m e)
        ]
      ]

  sigue : (p q r : PcbActivo) → MismaPila p q → MismaPila q r → MismaPila p r
  sigue p q r (a, b, c, d) (x, y, z, w) = (x ∙ a, y ∙ b, z ∙ c, w ∙ d)

  buscar_sentencia-MismaPila :
      (begin : Bool) (nombre : List ℕ) (cs : List Codigo) (contador : ℕ) (e : Ejecucion)
      → SiHay (λ r. MismaPila e.pcb r.0.pcb) (buscar_sentencia servicios begin nombre cs contador e)
  unfolding buscar_sentencia
  buscar_sentencia-MismaPila begin nombre [] contador e = (refl, refl, refl, refl)
  buscar_sentencia-MismaPila begin nombre (c ∷ cs) contador e =
      elim (Option-cases (pedir_a_memoria_string servicios c e)) [
        | inl n ↦ rw (buscar_sentencia, ◌>>=◌, n) tt
        | inr ((e', none), n) ↦ rw (buscar_sentencia, ◌>>=◌, n) tt
        | inr ((e', some t), n) ↦
            let mismo : MismaPila e.pcb e'.pcb =
              subst (SiHay (λ r. MismaPila e.pcb r.0.pcb)) n (pedir-MismaPila c e) in
            elim (Bool-cases (begin && length t == 0)) [
              | inl f ↦ rw (buscar_sentencia, ◌>>=◌, n, f) mismo
              | inr f ↦ elim (Bool-cases (servicios.string_equals_ignore_case t nombre)) [
                | inl g ↦ rw (buscar_sentencia, ◌>>=◌, n, f, g) mismo
                | inr g ↦
                    rw (buscar_sentencia, ◌>>=◌, n, f, g)
                      (SiHay-mapear (λ r. MismaPila e'.pcb r.0.pcb) (λ r. MismaPila e.pcb r.0.pcb)
                        (buscar_sentencia servicios begin nombre cs (suc contador) e')
                        (λ r k. sigue e.pcb e'.pcb r.0.pcb mismo k)
                        (buscar_sentencia-MismaPila begin nombre cs (suc contador) e'))
              ]
            ]
      ]

  module _ ⦃etiquetas : Commons Etiqueta⦄ where
    buscar_nombre-MismaPila :
        (nombre : List ℕ) (e : Ejecucion)
        → SiHay (λ r. MismaPila e.pcb r.0.pcb) (buscar_nombre servicios nombre e)
    unfolding buscar_nombre
    buscar_nombre-MismaPila nombre e = con (
        if ltb 0 (length e.pcb.indice_etiquetas)
        then buscar_etiqueta servicios nombre e.pcb.indice_etiquetas (length e.pcb.indice_codigo) 0
        else some none)
      where
        con :
            (o : Option (Option ℕ))
            → SiHay
                (λ r. MismaPila e.pcb r.0.pcb)
                (o >>= λ o. elim (o) [
                  | some ubicacion ↦ some (e, entero ubicacion)
                  | none ↦
                      buscar_sentencia servicios false
                        (codes "function " ++ nombre)
                        e.pcb.indice_codigo
                        0
                        e
                ])
        con none = tt
        con (some (some u)) = (refl, refl, refl, refl)
        con (some none) =
            buscar_sentencia-MismaPila false (codes "function " ++ nombre) e.pcb.indice_codigo 0 e

    villereada-MismaPila :
        (nombre : List ℕ) (begin : Bool) (e : Ejecucion)
        → SiHay (λ r. MismaPila e.pcb r.0.pcb) (villereada servicios nombre begin e)
    unfolding villereada
    villereada-MismaPila nombre begin e = elim (Bool-cases (e.pcb.estado_en_cpu == ejecutando)) [
      | inr f ↦ rw (villereada, f) (refl, refl, refl, refl)
      | inl f ↦ elim (Bool-cases begin) [
        | inl g ↦
            rw (villereada, f, g) (buscar_sentencia-MismaPila true nombre e.pcb.indice_codigo 0 e)
        | inr g ↦
            elim (Bool-cases (servicios.string_equals_ignore_case (take 1 nombre) (codes ":"))) [
              | inl k ↦ rw (villereada, f, g, k) (refl, refl, refl, refl)
              | inr k ↦ rw (villereada, f, g, k) (buscar_nombre-MismaPila nombre e)
            ]
      ]
    ]

    ir_a-MismaPila : (r : Ejecucion × ℤ) → MismaPila r.0.pcb (ir_a servicios r).pcb
    ir_a-MismaPila (e, u) = elim (Bool-cases (eqb_ℤ u minus_one)) [
      | inl f ↦ rw (f) (refl, refl, refl, refl)
      | inr f ↦ rw (f) (refl, refl, refl, refl)
    ]

    -- A jump changes nothing of the stack.
    pub ir_a_funcion-MismaPila :
        (nombre : List ℕ) (e : Ejecucion)
        → SiHay (λ r. MismaPila e.pcb r.pcb) (ir_a_funcion servicios nombre e)
    unfolding ir_a_funcion
    ir_a_funcion-MismaPila nombre e =
        SiHay-bind (λ r. MismaPila e.pcb r.0.pcb) (λ r. MismaPila e.pcb r.pcb)
          (villereada servicios nombre false e) (λ r. some (ir_a servicios r))
          (villereada-MismaPila nombre false e)
          (λ r k. sigue e.pcb r.0.pcb (ir_a servicios r).pcb k (ir_a-MismaPila r))
