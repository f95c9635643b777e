-- ===== src/Comunicacion.antt =====
-- The messages of src/comunicacion/comunicacion.c. The body is the C string that it holds, without the 0 at
-- its end; an outer `none` is a fault, a read of memory that nothing was written to or of a NULL.
pub mod Campos
pub mod Numeros
pub mod Lectura
pub mod Claves
pub mod Secuencias
pub mod Seleccion
use tp_sisop_1c_2017_david.Prelude.{
  partes, no_vacias, ℕ, zero, suc, ◌+◌, ◌-◌, ◌*◌, ◌/◌, ◌%◌, ◌^◌, ℤ, pos, negsuc, Bool, true, false,
  ltb, leb, ◌==◌, ◌&&◌, ◌||◌, if◌then◌else◌, Option, none, some, ◌>>=◌, ◌>>◌, guard, List, [], ◌∷◌,
  ◌++◌, length,
}

-- `t_mensaje` with its `t_header`
pub record Mensaje : Type 0 where
  pub tipo : ℕ
  pub len : ℕ
  pub body : List ℕ

-- `CARACTER_SEPARADOR`, '|', and the characters '-' and '0'
abbrev pub separador : ℕ
separador = 124

abbrev pub menos : ℕ
menos = 45

abbrev pub cero : ℕ
cero = 48

abbrev pub es_separador : ℕ → Bool
es_separador c = c == separador

-- `com_nuevoMensaje`
abbrev pub com_nuevo_mensaje : ℕ → Mensaje
com_nuevo_mensaje tipo = record { tipo = tipo; len = 0; body = [] }

-- The last `w` decimal digits of a number.
unfoldable pub digitos : ℕ → ℕ → List ℕ
digitos zero n = []
digitos (suc w) n = digitos w (n / 10) ++ ((cero + n % 10) ∷ [])

-- `%011d` for a value that is not negative and `%010d` for one that is, which has ten digits where nine
-- and the sign are not enough.
unfoldable pub formatear : ℤ → List ℕ
unfolding digitos
formatear (pos n) = digitos 11 n
formatear (negsuc n) =
    if ltb (suc n) (10 ^ 9) then menos ∷ digitos 9 (suc n) else menos ∷ digitos 10 (suc n)

-- One field as it is written, `clave|valor|`.
abbrev pub campo : List ℕ → List ℕ → List ℕ
campo clave valor = clave ++ (separador ∷ (valor ++ (separador ∷ [])))

-- `com_agregarIntAMensaje`, also what it returns, the new length.
unfoldable pub com_agregar_int : Mensaje → List ℕ → ℤ → Mensaje
unfolding formatear
com_agregar_int m clave valor =
    let len_clave_valor = length clave + 1 + (10 + 1 + 1 + 1) in
    record m {
      len = length m.body + len_clave_valor + 1;
      body = m.body ++ campo clave (formatear valor);
    }

-- `com_agregarStringAMensaje`
unfoldable pub com_agregar_string : Mensaje → List ℕ → List ℕ → Mensaje
com_agregar_string m clave valor =
    let len_clave_valor = length clave + 1 + (length valor + 1 + 1) + 1 in
    record m { len = length m.body + len_clave_valor + 1; body = m.body ++ campo clave valor }

-- `com_cargarPaginaAMensaje` of a page that has `len` bytes, and `com_leerPaginaDeMensaje`. The body is then
-- bytes and no string.
abbrev pub com_cargar_pagina : Mensaje → List ℕ → Mensaje
com_cargar_pagina m pagina = record m { len = length pagina; body = pagina }

abbrev pub com_leer_pagina : Mensaje → List ℕ
com_leer_pagina m = m.body

-- `strcmp` on equality
abbrev pub iguales : List ℕ → List ℕ → Bool
iguales [] [] = true
iguales [] (d ∷ ds) = false
iguales (c ∷ cs) [] = false
iguales (c ∷ cs) (d ∷ ds) = c == d && iguales cs ds

-- What the loop over the tokens finds: no such key, the key with nothing behind it, or its value.
pub data Busqueda : Type 0 where
  no_esta : Busqueda
  sin_valor : Busqueda
  valor : List ℕ → Busqueda

unfoldable pub buscar_clave : List ℕ → List (List ℕ) → Busqueda
buscar_clave clave [] = no_esta
buscar_clave clave (t ∷ []) = if iguales clave t then sin_valor else no_esta
buscar_clave clave (t ∷ v ∷ ts) = if iguales clave t then valor v else buscar_clave clave ts

-- The copy of the body into a buffer of `len` bytes and its tokens. Without the 0 among those bytes
-- `strtok` reads what nothing was written to.
unfoldable pub tokens : Mensaje → Option (List (List ℕ))
unfolding partes no_vacias
tokens m = guard (ltb (length m.body) m.len) >> some (no_vacias (partes es_separador m.body))

abbrev pub es_digito : ℕ → Bool
es_digito c = leb 48 c && leb c 57

-- `atoi`, for a text with no blanks before the number and a number that fits.
unfoldable pub leer_digitos : ℕ → List ℕ → ℕ
leer_digitos n [] = n
leer_digitos n (c ∷ cs) =
    let resto = leer_digitos (10 * n + (c - cero)) cs in if es_digito c then resto else n

abbrev pub opuesto : ℕ → ℤ
opuesto zero = pos 0
opuesto (suc n) = negsuc n

unfoldable pub atoi : List ℕ → ℤ
unfolding leer_digitos
atoi [] = pos 0
atoi (c ∷ cs) = if c == menos then opuesto (leer_digitos 0 cs) else pos (leer_digitos 0 (c ∷ cs))

-- `com_leerIntAMensaje`
unfoldable pub com_leer_int : Mensaje → List ℕ → Option ℤ
unfolding tokens atoi buscar_clave
com_leer_int m clave = tokens m >>= λ ts. elim (buscar_clave clave ts) [
  | no_esta ↦ some (pos 0)
  | sin_valor ↦ none
  | valor v ↦ some (atoi v)
]

-- `com_leerStringAMensaje`, whose NULL is `none`
unfoldable pub com_leer_string : Mensaje → List ℕ → Option (Option (List ℕ))
unfolding tokens buscar_clave
com_leer_string m clave = tokens m >>= λ ts. elim (buscar_clave clave ts) [
  | no_esta ↦ some none
  | sin_valor ↦ some none
  | valor v ↦ some (some v)
]
