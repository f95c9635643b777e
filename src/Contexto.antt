-- ===== src/Contexto.antt =====
-- What src/kernel/kernel.c and src/cpu/cpu.c tell each other about a process: its labels, the levels of its
-- stack and its instructions, as the fields of a message. `none` is a fault; a NULL text counts as one
-- where it is read, not where it is used.
use tp_sisop_1c_2017_david.Prelude.{
  ℕ, ◌++◌, ◌>>=◌, Option, none, some, List, [], ◌∷◌, ℤ, pos, length, codes,
}
use tp_sisop_1c_2017_david.Comunicacion.{Mensaje, com_leer_int, com_leer_string}
use tp_sisop_1c_2017_david.Comunicacion.Campos.{Campo, numero, texto}
use tp_sisop_1c_2017_david.Comunicacion.Claves.{decimal, dos}
use tp_sisop_1c_2017_david.Comunicacion.Secuencias.{
  sin_signo, leer_sin_signo, leer_lista, numerados, vueltas,
}
use tp_sisop_1c_2017_david.Cpu.Posiciones.{Posicion}
pub mod Lectura
pub mod Niveles
pub mod Validos
pub mod Partes
pub mod Viaje
pub mod Envio
pub mod Ida
pub mod Respuesta
pub mod Vuelta

-- `t_indiceDeEtiquetas`
pub record Etiqueta : Type 0 where
  pub etiquetas : List ℕ
  pub ubicacion : ℕ

-- `t_stack`, for the variables of one program
pub record Nivel (ν : Type 0) : Type 0 where
  pub id : ℕ
  pub argumento : List Posicion
  pub variable : List ν
  pub ret_pos : ℕ
  pub ret_var : Posicion

-- `t_codigo` and `t_map_instruccion`
pub record Codigo : Type 0 where
  pub pagina : ℕ
  pub offset : ℕ
  pub size : ℕ

-- How a program holds a variable: its name as text, its position, and the two put together.
pub record Formato (ν : Type 0) : Type 0 where
  pub nombre : ν → List ℕ
  pub posicion : ν → Posicion
  pub construir : List ℕ → Posicion → ν

abbrev pub claves_de_posicion : List ℕ → List ℕ → List ℕ → Posicion → List (List ℕ × Campo)
claves_de_posicion pagina offset size p =
    (pagina, sin_signo p.pagina) ∷ (offset, sin_signo p.offset) ∷ (size, sin_signo p.size) ∷ []

abbrev pub campos_etiqueta : ℕ → Etiqueta → List (List ℕ × Campo)
campos_etiqueta i e =
    (codes "claveEtiqueta" ++ decimal i, texto e.etiquetas)
    ∷ (codes "claveUbicacion" ++ decimal i, sin_signo e.ubicacion)
    ∷ []

abbrev pub campos_argumento : ℕ → ℕ → Posicion → List (List ℕ × Campo)
campos_argumento i a =
    claves_de_posicion (codes "argPag" ++ dos i a) (codes "argOff" ++ dos i a)
      (codes "argSize" ++ dos i a)

abbrev pub campos_variable : {ν : Type 0} → Formato ν → ℕ → ℕ → ν → List (List ℕ × Campo)
campos_variable formato i v var =
    (codes "varID" ++ dos i v, texto (formato.nombre var))
    ∷ claves_de_posicion (codes "varPag" ++ dos i v) (codes "varOff" ++ dos i v)
        (codes "varSize" ++ dos i v) (formato.posicion var)

-- The fields of a level up to its arguments.
abbrev pub campos_marco : {ν : Type 0} → ℕ → Nivel ν → List (List ℕ × Campo)
campos_marco i level =
    (codes "claveID" ++ decimal i, sin_signo level.id)
    ∷ (codes "retPos" ++ decimal i, sin_signo level.ret_pos)
    ∷ (codes "retVarPag" ++ decimal i, sin_signo level.ret_var.pagina)
    ∷ (codes "retVarOff" ++ decimal i, sin_signo level.ret_var.offset)
    ∷ (codes "retVarSiz" ++ decimal i, sin_signo level.ret_var.size)
    ∷ (codes "contArgumento" ++ decimal i, numero (pos (length level.argumento)))
    ∷ []

-- The fields of a level: what it is, its arguments and its variables, each list behind its length.
abbrev pub campos_nivel : {ν : Type 0} → Formato ν → ℕ → Nivel ν → List (List ℕ × Campo)
campos_nivel formato i level =
    campos_marco i level
    ++ (numerados (campos_argumento i) 0 level.argumento
        ++ (((codes "contVariable" ++ decimal i, numero (pos (length level.variable))) ∷ [])
            ++ numerados (campos_variable formato i) 0 level.variable))

abbrev pub campos_codigo : ℕ → Codigo → List (List ℕ × Campo)
campos_codigo c elem =
    (codes "pagina" ++ decimal c, sin_signo elem.pagina)
    ∷ (codes "offset" ++ decimal c, sin_signo elem.offset)
    ∷ (codes "size" ++ decimal c, sin_signo elem.size)
    ∷ []

-- A text that is there.
abbrev pub leer_texto : Mensaje → List ℕ → Option (List ℕ)
leer_texto m clave = com_leer_string m clave >>= λ t. t

abbrev pub leer_posicion : Mensaje → List ℕ → List ℕ → List ℕ → Option Posicion
leer_posicion m clave_pagina clave_offset clave_size = do
  pagina ← leer_sin_signo m clave_pagina
  offset ← leer_sin_signo m clave_offset
  size ← leer_sin_signo m clave_size
  some (record { pagina = pagina; offset = offset; size = size })

unfoldable pub leer_etiqueta : Mensaje → ℕ → Option Etiqueta
leer_etiqueta m i = do
  etiquetas ← leer_texto m (codes "claveEtiqueta" ++ decimal i)
  ubicacion ← leer_sin_signo m (codes "claveUbicacion" ++ decimal i)
  some (record { etiquetas = etiquetas; ubicacion = ubicacion })

unfoldable pub leer_argumento : Mensaje → ℕ → ℕ → Option Posicion
leer_argumento m s a =
    leer_posicion m (codes "argPag" ++ dos s a) (codes "argOff" ++ dos s a)
      (codes "argSize" ++ dos s a)

unfoldable pub leer_variable_stack : {ν : Type 0} → Formato ν → Mensaje → ℕ → ℕ → Option ν
leer_variable_stack formato m s v = do
  nombre ← leer_texto m (codes "varID" ++ dos s v)
  posicion ←
      leer_posicion m (codes "varPag" ++ dos s v) (codes "varOff" ++ dos s v)
        (codes "varSize" ++ dos s v)
  some (formato.construir nombre posicion)

unfoldable pub leer_nivel : {ν : Type 0} → Formato ν → Mensaje → ℕ → Option (Nivel ν)
leer_nivel formato m s = do
  id ← leer_sin_signo m (codes "claveID" ++ decimal s)
  ret_pos ← leer_sin_signo m (codes "retPos" ++ decimal s)
  ret_var ←
      leer_posicion m (codes "retVarPag" ++ decimal s) (codes "retVarOff" ++ decimal s)
        (codes "retVarSiz" ++ decimal s)
  argumentos ← com_leer_int m (codes "contArgumento" ++ decimal s)
  argumento ← leer_lista (leer_argumento m s) 0 (vueltas argumentos)
  variables ← com_leer_int m (codes "contVariable" ++ decimal s)
  variable ← leer_lista (leer_variable_stack formato m s) 0 (vueltas variables)
  some (record {
    id = id;
    argumento = argumento;
    variable = variable;
    ret_pos = ret_pos;
    ret_var = ret_var;
  })

unfoldable pub leer_codigo : Mensaje → ℕ → Option Codigo
leer_codigo m i = do
  pagina ← leer_sin_signo m (codes "pagina" ++ decimal i)
  offset ← leer_sin_signo m (codes "offset" ++ decimal i)
  size ← leer_sin_signo m (codes "size" ++ decimal i)
  some (record { pagina = pagina; offset = offset; size = size })
