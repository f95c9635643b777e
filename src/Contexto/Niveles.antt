-- ===== src/Contexto/Niveles.antt =====
-- The levels of a stack in the messages of src/kernel/kernel.c and src/cpu/cpu.c, written and read.
use tp_sisop_1c_2017_david.Prelude.{
  ℕ, ◌≢◌, ◌≡◌, refl, true, ◌++◌, ◌>>=◌, some, List, [], ◌∷◌, pos, length, codes, All,
}
use tp_sisop_1c_2017_david.Comunicacion.{Mensaje}
use tp_sisop_1c_2017_david.Comunicacion.Campos.{Campo, numero, valor_de}
use tp_sisop_1c_2017_david.Comunicacion.Claves.{decimal, iguales_refl}
use tp_sisop_1c_2017_david.Comunicacion.Secuencias.{Incluye, sin_signo, leer_lista, numerados}
use tp_sisop_1c_2017_david.Comunicacion.Seleccion.{
  Todas, numero_en, numero_en-uno, numero_en-dos, segundo_en, segundo_en-dos, empieza,
  Incluye-delante, Incluye-detras, All-numerados, All-append, leer_lista-numerados,
}
use tp_sisop_1c_2017_david.Cpu.Posiciones.{Posicion}
use tp_sisop_1c_2017_david.Contexto.{
  Nivel, Formato, campos_argumento, campos_variable, campos_marco, campos_nivel, leer_argumento,
  leer_variable_stack, leer_nivel,
}
use tp_sisop_1c_2017_david.Contexto.Lectura.{
  EsPalabra, EsPosicion, EsVariable, falso, leer_sin_signo-Da, leer_posicion-Da,
  leer_argumento-Incluye, leer_variable_stack-Incluye,
}

-- A level whose numbers fit.
abbrev pub EsNivel : {ν : Type 0} → Formato ν → Nivel ν → Type 0
EsNivel formato n =
    EsPalabra n.id
    × EsPalabra n.ret_pos
    × EsPosicion n.ret_var
    × All EsPosicion n.argumento
    × All (EsVariable formato) n.variable

module _ {ν : Type 0} (formato : Formato ν) where
  -- The keys of a level have its number, and those of its lists the index in them.
  pub numero_en-nivel :
      (i : ℕ) (n : Nivel ν) → EsNivel formato n → Todas numero_en i (campos_nivel formato i n)
  unfolding numero_en
  numero_en-nivel i n h =
      let uno = numero_en-uno i in
      let P = λ (c : List ℕ × Campo). numero_en c.0 ≡ i in
      let variables = numerados (campos_variable formato i) 0 n.variable in
      All-append P (campos_marco i n)
        (numerados (campos_argumento i) 0 n.argumento
          ++ (((codes "contVariable" ++ decimal i, numero (pos (length n.variable))) ∷ [])
              ++ variables))
        (uno, (uno, (uno, (uno, (uno, (uno, tt))))))
        (All-append P (numerados (campos_argumento i) 0 n.argumento)
          (((codes "contVariable" ++ decimal i, numero (pos (length n.variable))) ∷ [])
            ++ variables)
          (All-numerados (campos_argumento i) P EsPosicion
            (λ a p e. let d = numero_en-dos i a in (d, (d, (d, tt)))) 0 n.argumento h.3)
          (
            uno,
            All-numerados (campos_variable formato i) P (EsVariable formato)
                (λ v x e. let d = numero_en-dos i v in (d, (d, (d, (d, tt))))) 0 n.variable h.4,
          ))

module _ {ν : Type 0} (formato : Formato ν) (m : Mensaje) (i : ℕ) where
  leer_argumentos-Incluye :
      (n : Nivel ν)
      → EsNivel formato n
      → Incluye m (numerados (campos_argumento i) 0 n.argumento)
      → leer_lista (leer_argumento m i) 0 (length n.argumento) ≡ some n.argumento
  unfolding segundo_en
  leer_argumentos-Incluye n h =
      leer_lista-numerados (campos_argumento i) segundo_en EsPosicion
        (λ a p e. let d = segundo_en-dos i a in (d, (d, (d, tt)))) (leer_argumento m i) m
        (λ a p e. leer_argumento-Incluye m i a p e) 0 n.argumento h.3

  leer_variables_stack-Incluye :
      (n : Nivel ν)
      → EsNivel formato n
      → Incluye m (numerados (campos_variable formato i) 0 n.variable)
      → leer_lista (leer_variable_stack formato m i) 0 (length n.variable) ≡ some n.variable
  unfolding segundo_en
  leer_variables_stack-Incluye n h =
      leer_lista-numerados (campos_variable formato i) segundo_en (EsVariable formato)
        (λ a p e. let d = segundo_en-dos i a in (d, (d, (d, (d, tt)))))
        (leer_variable_stack formato m i) m (λ a p e. leer_variable_stack-Incluye formato m i a p e)
        0 n.variable h.4

  abbrev contador : Nivel ν → List (List ℕ × Campo)
  contador n = (codes "contVariable" ++ decimal i, numero (pos (length n.variable))) ∷ []

  -- A message with the fields of a level includes those of its parts.
  partes_de_nivel :
      (n : Nivel ν)
      → EsNivel formato n
      → Incluye m (campos_nivel formato i n)
      → Incluye m (campos_marco i n)
        × Incluye m (numerados (campos_argumento i) 0 n.argumento)
        × Incluye m (contador n)
        × Incluye m (numerados (campos_variable formato i) 0 n.variable)
  unfolding empieza
  partes_de_nivel n h inc =
      let as₁ = numerados (campos_argumento i) 0 n.argumento in
      let vs = numerados (campos_variable formato i) 0 n.variable in
      let de_argumentos =
        λ (P : List ℕ × Campo → Type 0)
            (f : (a : ℕ) (p : Posicion) → EsPosicion p → All P (campos_argumento i a p)).
          All-numerados (campos_argumento i) P EsPosicion f 0 n.argumento h.3 in
      let de_variables =
        λ (P : List ℕ × Campo → Type 0)
            (f : (a : ℕ) (p : ν) → EsVariable formato p → All P (campos_variable formato i a p)).
          All-numerados (campos_variable formato i) P (EsVariable formato) f 0 n.variable h.4 in
      let g₁ = empieza (codes "arg" ∷ codes "contV" ∷ codes "var" ∷ []) in
      let g₂ = empieza (codes "contV" ∷ codes "var" ∷ []) in
      let g₃ = empieza (codes "var" ∷ []) in
      let resto =
        Incluye-detras g₁ m true (campos_marco i n) (as₁ ++ (contador n ++ vs))
          (falso, (falso, (falso, (falso, (falso, (falso, tt))))))
          (All-append (λ c. g₁ c.0 ≡ true) as₁ (contador n ++ vs)
            (de_argumentos (λ c. g₁ c.0 ≡ true) (λ a p e. (refl, (refl, (refl, tt)))))
            (refl, de_variables (λ c. g₁ c.0 ≡ true) (λ a p e. (refl, (refl, (refl, (refl, tt)))))))
          inc in
      let ultimos =
        Incluye-detras g₂ m true as₁ (contador n ++ vs)
          (de_argumentos (λ c. g₂ c.0 ≢ true) (λ a p e. (falso, (falso, (falso, tt)))))
          (refl, de_variables (λ c. g₂ c.0 ≡ true) (λ a p e. (refl, (refl, (refl, (refl, tt))))))
          resto in
      (
        Incluye-delante m (campos_marco i n) (as₁ ++ (contador n ++ vs)) inc,
        Incluye-delante m as₁ (contador n ++ vs) resto,
        Incluye-delante m (contador n) vs ultimos,
        Incluye-detras g₃ m true (contador n) vs (falso, tt)
            (de_variables (λ c. g₃ c.0 ≡ true) (λ a p e. (refl, (refl, (refl, (refl, tt))))))
            ultimos,
      )

  pub leer_nivel-Incluye :
      (n : Nivel ν)
      → EsNivel formato n
      → Incluye m (campos_nivel formato i n)
      → leer_nivel formato m i ≡ some n
  unfolding leer_nivel valor_de
  leer_nivel-Incluye n h inc =
      let p = partes_de_nivel n h inc in
      let k₀ = codes "claveID" ++ decimal i in
      let k₁ = codes "retPos" ++ decimal i in
      let k₂ = codes "retVarPag" ++ decimal i in
      let k₃ = codes "retVarOff" ++ decimal i in
      let k₄ = codes "retVarSiz" ++ decimal i in
      let k₅ = codes "contArgumento" ++ decimal i in
      let k₆ = codes "contVariable" ++ decimal i in
      let posicion =
        leer_posicion-Da m k₂ k₃ k₄ n.ret_var h.2
          (p.0 k₂ (sin_signo n.ret_var.pagina) (rw (valor_de, iguales_refl k₂) refl))
          (p.0 k₃ (sin_signo n.ret_var.offset) (rw (valor_de, iguales_refl k₃) refl))
          (p.0 k₄ (sin_signo n.ret_var.size) (rw (valor_de, iguales_refl k₄) refl)) in
      rw
        (
          leer_nivel,
          leer_sin_signo-Da m k₀ n.id h.0
              (p.0 k₀ (sin_signo n.id) (rw (valor_de, iguales_refl k₀) refl)),
          ◌>>=◌,
          leer_sin_signo-Da m k₁ n.ret_pos h.1
              (p.0 k₁ (sin_signo n.ret_pos) (rw (valor_de, iguales_refl k₁) refl)),
          posicion,
          (p.0 k₅ (numero (pos (length n.argumento))) (rw (valor_de, iguales_refl k₅) refl)).0,
          leer_argumentos-Incluye n h p.1,
          (p.2 k₆ (numero (pos (length n.variable))) (rw (valor_de, iguales_refl k₆) refl)).0,
          leer_variables_stack-Incluye n h p.3,
        )
        refl
