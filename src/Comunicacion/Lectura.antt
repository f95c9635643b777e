-- ===== src/Comunicacion/Lectura.antt =====
-- The reading of a message of src/comunicacion/comunicacion.c.
use tp_sisop_1c_2017_david.Prelude.{
  partes, no_vacias, partes-separador, ℕ, ◌<◌, ℤ, pos, EsInt32, false, Bool-cases, inl, inr, ◌≡◌,
  refl, sym, ap, subst, ◌∙◌, List, [], ◌∷◌, ◌++◌, append_assoc, append-nil, length-append, All,
  length, lt→ltb, Option, none, some, arith,
}
use tp_sisop_1c_2017_david.Comunicacion.{
  Mensaje, com_nuevo_mensaje, com_agregar_int, com_agregar_string, com_leer_int, com_leer_string,
  campo, formatear, atoi, iguales, separador, es_separador, tokens, buscar_clave, Busqueda, no_esta,
  sin_valor, valor,
}
use tp_sisop_1c_2017_david.Comunicacion.Numeros.{
  formatear-SinSeparador, length-formatear, atoi-formatear,
}
use tp_sisop_1c_2017_david.Comunicacion.Campos.{
  Campo, numero, texto, escrito, cuerpo, valor_de, EsCampo, EsValor, SinSeparador, Lleva,
  length-campo,
}

no_vacias-cons :
    (k : List ℕ) (ts : List (List ℕ)) → 0 < length k → no_vacias (k ∷ ts) ≡ k ∷ no_vacias ts
unfolding no_vacias
no_vacias-cons [] ts h = absurd (omega arith)
no_vacias-cons (c ∷ k) ts h = refl

-- The tokens of a field and of what follows it.
tokens-campo :
    (k v cs : List ℕ)
    → (0 < length k) × SinSeparador k
    → (0 < length v) × SinSeparador v
    → no_vacias (partes es_separador (campo k v ++ cs)) ≡ k ∷ v ∷ no_vacias (partes es_separador cs)
tokens-campo k v cs hk hv =
    ap (λ b. no_vacias (partes es_separador b))
      (append_assoc k (separador ∷ (v ++ (separador ∷ []))) cs
        ∙ ap (λ b. k ++ (separador ∷ b)) (append_assoc v (separador ∷ []) cs))
    ∙ ap no_vacias (partes-separador es_separador k separador (v ++ (separador ∷ cs)) hk.1 refl)
    ∙ no_vacias-cons k (partes es_separador (v ++ (separador ∷ cs))) hk.0
    ∙ ap (λ ts. k ∷ no_vacias ts) (partes-separador es_separador v separador cs hv.1 refl)
    ∙ ap (λ ts. k ∷ ts) (no_vacias-cons v (partes es_separador cs) hv.0)

EsValor-escrito : (c : Campo) → EsValor c → (0 < length (escrito c)) × SinSeparador (escrito c)
EsValor-escrito (numero v) h = ((length-formatear v h).0, formatear-SinSeparador v)
EsValor-escrito (texto s) h = h

-- A key with its value among the tokens.
abbrev pub hallado : Option Campo → Busqueda
hallado none = no_esta
hallado (some c) = valor (escrito c)

buscar_clave-cuerpo :
    (clave : List ℕ) (campos : List (List ℕ × Campo))
    → All EsCampo campos
    → buscar_clave clave (no_vacias (partes es_separador (cuerpo campos)))
      ≡ hallado (valor_de clave campos)
unfolding buscar_clave cuerpo valor_de partes no_vacias
buscar_clave-cuerpo clave [] a = refl
buscar_clave-cuerpo clave (c ∷ cs) a =
    ap (buscar_clave clave)
      (tokens-campo c.0 (escrito c.1) (cuerpo cs) (a.0.0, a.0.1) (EsValor-escrito c.1 a.0.2))
    ∙ elim (Bool-cases (iguales clave c.0)) [
      | inl e ↦ rw (buscar_clave, valor_de, e) refl
      | inr e ↦ rw (buscar_clave, valor_de, e) (buscar_clave-cuerpo clave cs a.1)
    ]

-- What a reader gets from the value of a key.
abbrev pub como_int : Option Campo → ℤ
como_int none = pos 0
como_int (some (numero v)) = v
como_int (some (texto s)) = atoi s

abbrev pub como_texto : Option Campo → Option (List ℕ)
como_texto none = none
como_texto (some c) = some (escrito c)

valor_de-EsValor :
    (clave : List ℕ) (campos : List (List ℕ × Campo)) {c : Campo}
    → All EsCampo campos
    → valor_de clave campos ≡ some c
    → EsValor c
unfolding valor_de
valor_de-EsValor clave [] a e = cc
valor_de-EsValor clave (d ∷ cs) {c} a e = elim (Bool-cases (iguales clave d.0)) [
  | inl h ↦
      let abre : valor_de clave (d ∷ cs) ≡ some d.1 = rw (valor_de, h) refl in
      let mismo : d.1 ≡ c = cc in subst EsValor mismo a.0.2
  | inr h ↦
      let abre : valor_de clave (d ∷ cs) ≡ valor_de clave cs = rw (valor_de, h) refl in
      valor_de-EsValor clave cs a.1 (sym abre ∙ e)
]

abbrev int_de : Busqueda → Option ℤ
int_de no_esta = some (pos 0)
int_de sin_valor = none
int_de (valor v) = some (atoi v)

abbrev texto_de : Busqueda → Option (Option (List ℕ))
texto_de no_esta = some none
texto_de sin_valor = some none
texto_de (valor v) = some (some v)

int_de-hallado :
    (o : Option Campo)
    → ((c : Campo) → o ≡ some c → EsValor c)
    → int_de (hallado o) ≡ some (como_int o)
int_de-hallado none h = refl
int_de-hallado (some (numero v)) h = ap some (atoi-formatear v (h (numero v) refl))
int_de-hallado (some (texto s)) h = refl

texto_de-hallado : (o : Option Campo) → texto_de (hallado o) ≡ some (como_texto o)
texto_de-hallado none = refl
texto_de-hallado (some c) = refl

module _ (m : Mensaje) (ts : List (List ℕ)) (e : tokens m ≡ some ts) (clave : List ℕ) where
  com_leer_int-buscar : com_leer_int m clave ≡ int_de (buscar_clave clave ts)
  unfolding com_leer_int
  com_leer_int-buscar = rw (com_leer_int, e) (casos (buscar_clave clave ts))
    where
      casos :
          (b : Busqueda)
          → elim b [ no_esta ↦ some (pos 0) | sin_valor ↦ none | valor v ↦ some (atoi v) ]
            ≡ int_de b
      casos no_esta = refl
      casos sin_valor = refl
      casos (valor v) = refl

  com_leer_string-buscar : com_leer_string m clave ≡ texto_de (buscar_clave clave ts)
  unfolding com_leer_string
  com_leer_string-buscar = rw (com_leer_string, e) (casos (buscar_clave clave ts))
    where
      casos :
          (b : Busqueda)
          → ◌≡◌ {A = Option (Option (List ℕ))}
              (elim b [ no_esta ↦ some none | sin_valor ↦ some none | valor v ↦ some (some v) ])
              (texto_de b)
      casos no_esta = refl
      casos sin_valor = refl
      casos (valor v) = refl

tokens-enviado :
    (m : Mensaje) → length m.body < m.len → tokens m ≡ some (no_vacias (partes es_separador m.body))
unfolding tokens
tokens-enviado m h = rw (tokens, lt→ltb (length m.body) m.len h) refl

-- Reading from a message with at least one field, whose keys and texts are not empty and have no '|' in
-- them: `com_leerIntAMensaje` returns the `int` that the first field with the key was given, or 0 where
-- there is no such field, and `com_leerStringAMensaje` its text, or NULL.
pub com_leer_lem :
    (m : Mensaje) (campos : List (List ℕ × Campo)) (clave : List ℕ)
    → Lleva m campos
    → 0 < length m.body
    → All EsCampo campos
    → (com_leer_int m clave ≡ some (como_int (valor_de clave campos)))
      × (com_leer_string m clave ≡ some (como_texto (valor_de clave campos)))
com_leer_lem m campos clave l h a =
    let e = tokens-enviado m (elim l.enviado [ inl z ↦ omega arith | inr z ↦ z ]) in
    let b : buscar_clave clave (no_vacias (partes es_separador m.body))
        ≡ hallado (valor_de clave campos) =
      ap (λ c. buscar_clave clave (no_vacias (partes es_separador c))) l.cuerpos
      ∙ buscar_clave-cuerpo clave campos a in
    (
      com_leer_int-buscar m (no_vacias (partes es_separador m.body)) e clave
          ∙ ap int_de b
          ∙ int_de-hallado (valor_de clave campos) (λ c f. valor_de-EsValor clave campos a f),
      com_leer_string-buscar m (no_vacias (partes es_separador m.body)) e clave
          ∙ ap texto_de b
          ∙ texto_de-hallado (valor_de clave campos),
    )

tokens_desalineados :
    (vacia clave : List ℕ) (v : ℤ)
    → EsInt32 v
    → (0 < length vacia) × SinSeparador vacia
    → (0 < length clave) × SinSeparador clave
    → no_vacias (partes es_separador (campo vacia [] ++ campo clave (formatear v)))
      ≡ vacia ∷ clave ∷ formatear v ∷ []
unfolding no_vacias partes
tokens_desalineados vacia clave v h hk hc =
    let cola = campo clave (formatear v) in
    ap (λ b. no_vacias (partes es_separador b))
      (append_assoc vacia (separador ∷ separador ∷ []) cola)
    ∙ ap no_vacias (partes-separador es_separador vacia separador (separador ∷ cola) hk.1 refl)
    ∙ no_vacias-cons vacia (partes es_separador (separador ∷ cola)) hk.0
    ∙ ap (λ ts. vacia ∷ no_vacias ts) (partes-separador es_separador [] separador cola tt refl)
    ∙ ap (λ b. vacia ∷ no_vacias (partes es_separador b)) (sym (append-nil cola))
    ∙ ap (λ ts. vacia ∷ ts)
        (tokens-campo clave (formatear v) [] hc
          ((length-formatear v h).0, formatear-SinSeparador v))

buscar_desalineado :
    (clave a b : List ℕ)
    → iguales clave a ≡ false
    → iguales clave b ≡ false
    → buscar_clave clave (a ∷ clave ∷ b ∷ []) ≡ no_esta
unfolding buscar_clave
buscar_desalineado clave a b d₁ d₂ = rw (buscar_clave, d₁, d₂) refl

-- An empty text is no token, so the field behind it is not found: its `int` is read as 0.
pub com_leer_int_desalineado :
    (tipo : ℕ) (vacia clave : List ℕ) (v : ℤ)
    → EsInt32 v
    → (0 < length vacia) × SinSeparador vacia
    → (0 < length clave) × SinSeparador clave
    → iguales clave vacia ≡ false
    → iguales clave (formatear v) ≡ false
    → com_leer_int
        (com_agregar_int (com_agregar_string (com_nuevo_mensaje tipo) vacia []) clave v)
        clave
      ≡ some (pos 0)
unfolding com_agregar_int com_agregar_string
com_leer_int_desalineado tipo vacia clave v h hk hc d₁ d₂ =
    let m = com_agregar_int (com_agregar_string (com_nuevo_mensaje tipo) vacia []) clave v in
    let largo : length m.body < m.len = omega (
      arith,
      length-append (campo vacia []) (campo clave (formatear v)),
      length-campo clave (formatear v),
      (length-formatear v h).1,
    ) in
    com_leer_int-buscar m (no_vacias (partes es_separador m.body)) (tokens-enviado m largo) clave
    ∙ ap (λ ts. int_de (buscar_clave clave ts)) (tokens_desalineados vacia clave v h hk hc)
    ∙ ap int_de (buscar_desalineado clave vacia (formatear v) d₁ d₂)
