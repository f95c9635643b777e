-- ===== src/Kernel/Minify.antt =====
-- The preparation of a script, src/kernel/minify.c. A C string is the list of its characters, without the
-- 0 at its end. An outer `none` is a fault: a NULL that is read.
pub mod Nulo
pub mod Lineas
pub mod Instrucciones
use tp_sisop_1c_2017_david.Prelude.{
  cortar, partes, no_vacias, es_vacia, ℕ, zero, suc, ◌+◌, ◌<◌, Bool, true, false, ltb, leb, ◌==◌,
  ◌&&◌, ◌||◌, if◌then◌else◌, Option, none, some, ◌>>=◌, List, [], ◌∷◌, ◌++◌, length, take, drop,
}

-- The characters ' ', '\t', '\n', '\r' and '#'.
abbrev pub espacio : ℕ
espacio = 32

abbrev pub tab : ℕ
tab = 9

abbrev pub nueva_linea : ℕ
nueva_linea = 10

abbrev pub retorno : ℕ
retorno = 13

abbrev pub numeral : ℕ
numeral = 35

abbrev pub distinto : ℕ → ℕ → Bool
distinto c d = ltb c d || ltb d c

-- `separador`
abbrev pub es_separador : ℕ → Bool
es_separador c = c == retorno || c == nueva_linea || c == tab

-- The loop of `limpiarBlancosIniciales`, with its `fin` and the characters not read yet.
unfoldable pub limpiar_desde : Bool → List ℕ → List ℕ
limpiar_desde fin [] = []
limpiar_desde fin (c ∷ cs) = elim ((distinto c espacio && distinto c tab) || fin) [
  | true ↦ c ∷ limpiar_desde true cs
  | false ↦ limpiar_desde false cs
]

-- `limpiarBlancosIniciales`
unfoldable pub limpiar_blancos_iniciales : List ℕ → List ℕ
unfolding limpiar_desde
limpiar_blancos_iniciales cadena = limpiar_desde false cadena

-- The test that `scriptToList` makes of a line: not a comment, and not empty.
abbrev pub es_comando : List ℕ → Bool
es_comando [] = false
es_comando (c ∷ cs) = distinto c numeral

-- The loop of `scriptToList` over the tokens.
unfoldable pub comandos : List (List ℕ) → List (List ℕ)
unfolding limpiar_blancos_iniciales
comandos [] = []
comandos (t ∷ ts) =
    let comando = limpiar_blancos_iniciales t in
    if es_comando comando then comando ∷ comandos ts else comandos ts

-- `scriptToList`, which cleans the first token before it looks whether there is one.
unfoldable pub script_to_list : List ℕ → Option (List (List ℕ))
unfolding comandos no_vacias partes
script_to_list script = elim (no_vacias (partes es_separador script)) [
  | [] ↦ none
  | t ∷ ts ↦ some (comandos (t ∷ ts))
]

-- `t_map_instruccion`
pub record MapInstruccion : Type 0 where
  pub index : ℕ
  pub pagina : ℕ
  pub offset : ℕ
  pub size : ℕ

-- `getCadenaToBloque`, which leaves two fields to its caller.
abbrev pub get_cadena_to_bloque : ℕ → ℕ → List ℕ → MapInstruccion
get_cadena_to_bloque i inicio cadena = record {
  index = i;
  pagina = 0;
  offset = inicio;
  size = length cadena;
}

-- The loop of `scriptToBloques`.
unfoldable pub bloques_desde : ℕ → ℕ → List (List ℕ) → List MapInstruccion
bloques_desde i inicio [] = []
bloques_desde i inicio (cadena ∷ cs) =
    get_cadena_to_bloque i inicio cadena ∷ bloques_desde (suc i) (inicio + length cadena) cs

-- `scriptToBloques`
unfoldable pub script_to_bloques : List ℕ → Option (List MapInstruccion)
unfolding script_to_list bloques_desde
script_to_bloques script = script_to_list script >>= λ cs. some (bloques_desde 0 0 cs)

-- The loop of `getCadenaContatenada`.
unfoldable pub concatenar : List (List ℕ) → List ℕ
concatenar [] = []
concatenar (c ∷ cs) = c ++ concatenar cs

-- `getCadenaContatenada`
unfoldable pub get_cadena_contatenada : List ℕ → Option (List ℕ)
unfolding script_to_list concatenar
get_cadena_contatenada script = script_to_list script >>= λ cs. some (concatenar cs)

-- `substring`, whose NULL is `none`.
unfoldable pub substring : List ℕ → ℕ → ℕ → Option (List ℕ)
substring str begin len =
    if length str == 0 || ltb (length str) begin || ltb (length str) (begin + len)
    then none
    else some (take len (drop begin str))
