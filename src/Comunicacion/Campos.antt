-- ===== src/Comunicacion/Campos.antt =====
-- What a message of src/comunicacion/comunicacion.c holds in the abstract: its fields in order.
use tp_sisop_1c_2017_david.Prelude.{
  ℕ, ◌+◌, ◌<◌, ℤ, EsInt32, false, if◌then◌else◌, ◌⊎◌, inr, ◌≡◌, sym, ap, ◌∙◌, List, [], ◌∷◌, ◌++◌,
  append_assoc, append-nil, All, length, length-append, Option, none, some, arith,
}
use tp_sisop_1c_2017_david.Comunicacion.{
  Mensaje, com_agregar_int, com_agregar_string, campo, formatear, iguales, separador, es_separador,
}
use tp_sisop_1c_2017_david.Comunicacion.Numeros.{length-formatear}

pub data Campo : Type 0 where
  numero : ℤ → Campo
  texto : List ℕ → Campo

abbrev pub escrito : Campo → List ℕ
escrito (numero v) = formatear v
escrito (texto s) = s

-- The body that holds the fields.
unfoldable pub cuerpo : List (List ℕ × Campo) → List ℕ
cuerpo [] = []
cuerpo (c ∷ cs) = campo c.0 (escrito c.1) ++ cuerpo cs

-- The value that a key has: that of the first field with the key.
unfoldable pub valor_de : List ℕ → List (List ℕ × Campo) → Option Campo
valor_de clave [] = none
valor_de clave (c ∷ cs) =
    let resto = valor_de clave cs in if iguales clave c.0 then some c.1 else resto

abbrev pub SinSeparador : List ℕ → Type 0
SinSeparador = All (λ c. es_separador c ≡ false)

-- A value that survives the way: an `int`, or a text that is not empty and has no '|' in it.
abbrev pub EsValor : Campo → Type 0
EsValor (numero v) = EsInt32 v
EsValor (texto s) = (0 < length s) × SinSeparador s

abbrev pub EsCampo : List ℕ × Campo → Type 0
EsCampo c = (0 < length c.0) × SinSeparador c.0 × EsValor c.1

-- A message whose body holds the fields, and of which enough is sent.
pub record Lleva (m : Mensaje) (campos : List (List ℕ × Campo)) : Type 0 where
  pub cuerpos : m.body ≡ cuerpo campos
  pub enviado : (length m.body ≡ 0) ⊎ (length m.body < m.len)

cuerpo-append :
    (cs : List (List ℕ × Campo)) (c : List ℕ × Campo)
    → cuerpo (cs ++ (c ∷ [])) ≡ cuerpo cs ++ campo c.0 (escrito c.1)
unfolding cuerpo
cuerpo-append [] c = append-nil (campo c.0 (escrito c.1))
cuerpo-append (d ∷ cs) c =
    ap (λ l. campo d.0 (escrito d.1) ++ l) (cuerpo-append cs c)
    ∙ sym (append_assoc (campo d.0 (escrito d.1)) (cuerpo cs) (campo c.0 (escrito c.1)))

pub length-campo : (k v : List ℕ) → length (campo k v) ≡ length k + length v + 2
length-campo k v =
    omega (
      arith,
      length-append k (separador ∷ (v ++ (separador ∷ []))),
      length-append v (separador ∷ []),
    )

-- A message that gets a field of an `int` holds that field behind the others, and the length sent covers
-- the body and the 0 at its end.
pub com_agregar_int-Lleva :
    (m : Mensaje) (campos : List (List ℕ × Campo)) (clave : List ℕ) (v : ℤ)
    → EsInt32 v
    → Lleva m campos
    → Lleva (com_agregar_int m clave v) (campos ++ ((clave, numero v) ∷ []))
unfolding com_agregar_int
com_agregar_int-Lleva m campos clave v e l = record {
  cuerpos =
      ap (λ b. b ++ campo clave (formatear v)) l.cuerpos
      ∙ sym (cuerpo-append campos (clave, numero v));
  enviado = inr (
      omega (
        arith,
        length-append m.body (campo clave (formatear v)),
        length-campo clave (formatear v),
        (length-formatear v e).1,
      ));
}

-- The same for a text.
pub com_agregar_string-Lleva :
    (m : Mensaje) (campos : List (List ℕ × Campo)) (clave s : List ℕ)
    → Lleva m campos
    → Lleva (com_agregar_string m clave s) (campos ++ ((clave, texto s) ∷ []))
unfolding com_agregar_string
com_agregar_string-Lleva m campos clave s l = record {
  cuerpos = ap (λ b. b ++ campo clave s) l.cuerpos ∙ sym (cuerpo-append campos (clave, texto s));
  enviado = inr (omega (arith, length-append m.body (campo clave s), length-campo clave s));
}
