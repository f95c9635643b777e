-- ===== src/Comunicacion/Secuencias.antt =====
-- Sequences of fields in the messages of src/comunicacion/comunicacion.c: those of a list, whose keys have
-- the index of the element, and what a reader gets from a message that includes them.
use tp_sisop_1c_2017_david.Prelude.{
  ℕ, zero, suc, ◌<◌, ◌^◌, lt→ltb, le→ltb_false, dec_lt, subst, length-append, ◌≡◌, refl, sym, ap,
  ◌∙◌, inl, Option, some, ◌>>=◌, ℤ, pos, negsuc, List, [], ◌∷◌, ◌++◌, length, All, arith,
  append_assoc, append-nil, palabra, entero, EsInt32,
}
use tp_sisop_1c_2017_david.Comunicacion.{
  Mensaje, com_nuevo_mensaje, com_agregar_int, com_agregar_string, com_leer_int, com_leer_string,
  campo,
}
use tp_sisop_1c_2017_david.Comunicacion.Campos.{
  length-campo, Campo, numero, texto, escrito, cuerpo, valor_de, EsCampo, Lleva,
  com_agregar_int-Lleva, com_agregar_string-Lleva,
}
use tp_sisop_1c_2017_david.Comunicacion.Lectura.{como_int, como_texto, com_leer_lem}

abbrev pub agregar_campo : Mensaje → List ℕ × Campo → Mensaje
agregar_campo m (clave, numero v) = com_agregar_int m clave v
agregar_campo m (clave, texto s) = com_agregar_string m clave s

-- The calls that add the fields, in order.
unfoldable pub agregar_campos : Mensaje → List (List ℕ × Campo) → Mensaje
agregar_campos m [] = m
agregar_campos m (c ∷ cs) = agregar_campos (agregar_campo m c) cs

-- A `uint32_t` in a field, and out of one.
abbrev pub sin_signo : ℕ → Campo
sin_signo n = numero (entero n)

unfoldable pub leer_sin_signo : Mensaje → List ℕ → Option ℕ
leer_sin_signo m clave = com_leer_int m clave >>= λ v. some (palabra v)

-- The number of rounds of a loop below an `int`.
abbrev pub vueltas : ℤ → ℕ
vueltas (pos n) = n
vueltas (negsuc n) = 0

module _ {A : Type 0} where
  -- The fields of the elements of a list, each with its index, from `s` on.
  unfoldable pub numerados : (ℕ → A → List (List ℕ × Campo)) → ℕ → List A → List (List ℕ × Campo)
  numerados f s [] = []
  numerados f s (x ∷ xs) = f s x ++ numerados f (suc s) xs

  -- A loop that reads one element in each round.
  unfoldable pub leer_lista : (ℕ → Option A) → ℕ → ℕ → Option (List A)
  leer_lista f s zero = some []
  leer_lista f s (suc n) = f s >>= λ x. leer_lista f (suc s) n >>= λ xs. some (x ∷ xs)

pub palabra-entero : (n : ℕ) → n < 2 ^ 32 → palabra (entero n) ≡ n
palabra-entero n h = ground arith

pub entero-EsInt32 : (n : ℕ) → n < 2 ^ 32 → EsInt32 (entero n)
entero-EsInt32 n h = elim (dec_lt n (2 ^ 31)) [
  | yes l ↦ rw (lt→ltb n (2 ^ 31) l) (omega arith)
  | no l ↦ rw (le→ltb_false n (2 ^ 31) (omega arith)) (omega arith)
]

agregar_campo-Lleva :
    (m : Mensaje) (cs : List (List ℕ × Campo)) (c : List ℕ × Campo)
    → EsCampo c
    → Lleva m cs
    → Lleva (agregar_campo m c) (cs ++ (c ∷ []))
agregar_campo-Lleva m cs (clave, numero v) h l = com_agregar_int-Lleva m cs clave v h.2 l
agregar_campo-Lleva m cs (clave, texto s) h l = com_agregar_string-Lleva m cs clave s l

agregar_campos-Lleva :
    (m : Mensaje) (cs ds : List (List ℕ × Campo))
    → All EsCampo ds
    → Lleva m cs
    → Lleva (agregar_campos m ds) (cs ++ ds)
unfolding agregar_campos
agregar_campos-Lleva m cs [] a l = subst (Lleva m) (sym (append-nil cs)) l
agregar_campos-Lleva m cs (d ∷ ds) a l =
    subst (Lleva (agregar_campos m (d ∷ ds))) (append_assoc cs (d ∷ []) ds) (
      agregar_campos-Lleva (agregar_campo m d) (cs ++ (d ∷ [])) ds a.1
        (agregar_campo-Lleva m cs d a.0 l))

-- Both ways to read a key give the value.
abbrev pub Da : Mensaje → List ℕ → Campo → Type 0
Da m clave c =
    (com_leer_int m clave ≡ some (como_int (some c)))
    × (com_leer_string m clave ≡ some (some (escrito c)))

-- The message gives every key of the fields its value.
abbrev pub Incluye : Mensaje → List (List ℕ × Campo) → Type 0
Incluye m cs = (clave : List ℕ) (c : Campo) → valor_de clave cs ≡ some c → Da m clave c

-- A message made of fields that survive the way includes them.
pub agregar_campos-Incluye :
    (tipo : ℕ) (c : List ℕ × Campo) (cs : List (List ℕ × Campo))
    → All EsCampo (c ∷ cs)
    → Incluye (agregar_campos (com_nuevo_mensaje tipo) (c ∷ cs)) (c ∷ cs)
unfolding agregar_campos cuerpo
agregar_campos-Incluye tipo c cs a clave v e =
    let m = agregar_campos (com_nuevo_mensaje tipo) (c ∷ cs) in
    let vacio : Lleva (com_nuevo_mensaje tipo) [] = record { cuerpos = refl; enviado = inl refl } in
    let l = agregar_campos-Lleva (com_nuevo_mensaje tipo) [] (c ∷ cs) a vacio in
    let leido = com_leer_lem m (c ∷ cs) clave l (largo m l.cuerpos) a in
    (leido.0 ∙ ap (λ o. some (como_int o)) e, leido.1 ∙ ap (λ o. some (como_texto o)) e)
  where
    largo : (m : Mensaje) → m.body ≡ cuerpo (c ∷ cs) → 0 < length m.body
    largo m e = omega (
      arith,
      ap length e,
      length-append (campo c.0 (escrito c.1)) (cuerpo cs),
      length-campo c.0 (escrito c.1),
    )
