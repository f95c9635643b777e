-- ===== src/Pruebas/Minify.antt =====
-- The preparation of a script, src/kernel/minify.c, on a script of three lines with a comment.
use tp_sisop_1c_2017_david.Prelude.{
  partes, no_vacias, ℕ, ◌≡◌, ◌↔◌, refl, none, some, List, [], ◌∷◌, get_or, arith,
}
use tp_sisop_1c_2017_david.Kernel.Minify.{
  MapInstruccion, script_to_list, script_to_bloques, get_cadena_contatenada, substring,
  get_cadena_to_bloque, comandos,
}
use tp_sisop_1c_2017_david.Kernel.Minify.Nulo.{SoloSeparadores, script_to_list-nulo}
use tp_sisop_1c_2017_david.Kernel.Minify.Instrucciones.{script_to_bloques-substring}

-- "a b", "  # x", and "  cd" behind a tab.
abbrev script : List ℕ
script = 97 ∷ 32 ∷ 98 ∷ 10 ∷ 32 ∷ 32 ∷ 35 ∷ 32 ∷ 120 ∷ 10 ∷ 9 ∷ 32 ∷ 32 ∷ 99 ∷ 100 ∷ 10 ∷ []

abbrev lineas : List (List ℕ)
lineas = (97 ∷ 32 ∷ 98 ∷ []) ∷ (99 ∷ 100 ∷ []) ∷ []

dos_lineas : script_to_list script ≡ some lineas
unfolding script_to_list comandos partes no_vacias
dos_lineas = refl

sin_comandos : script_to_list (10 ∷ 9 ∷ []) ≡ none
unfolding script_to_list partes no_vacias
sin_comandos = refl

abbrev nada : MapInstruccion
nada = get_cadena_to_bloque 0 0 []

script_to_bloques-substring_example :
    (bloques : List MapInstruccion) × (texto : List ℕ) × (script_to_bloques script ≡ some bloques)
    × (get_cadena_contatenada script ≡ some texto)
    × ((get_or bloques 1 nada).index ≡ 1)
    × (substring texto (get_or bloques 1 nada).offset (get_or bloques 1 nada).size
        ≡ some (99 ∷ 100 ∷ []))
script_to_bloques-substring_example =
    script_to_bloques-substring script nada 1 dos_lineas (omega arith)

script_to_list-nulo_example : (script_to_list script ≡ none) ↔ SoloSeparadores script
script_to_list-nulo_example = script_to_list-nulo script
