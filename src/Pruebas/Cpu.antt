-- ===== src/Pruebas/Cpu.antt =====
-- Stack positions of src/cpu/cpu.c with pages of 256 bytes.
use tp_sisop_1c_2017_david.Prelude.{ℕ, ◌<◌, ◌≡◌, ◌≢◌, refl, [], ◌∷◌, listas_puras, arith}
use tp_sisop_1c_2017_david.Cpu.Posiciones.{
  Posicion, posicion_convertir_a_puntero, puntero_convertir_a_posicion, actualizar_stack_pointer,
  puntero-posicion,
}
use tp_sisop_1c_2017_david.Cpu.Variables.{
  Contexto, definir_variable, obtener_posicion_variable, definir-obtener_posicion_variable,
}

abbrev fin_de_pagina : Posicion
fin_de_pagina = record { pagina = 3; offset = 252; size = 4 }

pagina_siguiente :
    actualizar_stack_pointer 256 fin_de_pagina ≡ record { pagina = 4; offset = 0; size = 4 }
unfolding actualizar_stack_pointer
pagina_siguiente = refl

puntero-posicion_example :
    ((puntero_convertir_a_posicion 256 1000).offset < 256)
    × (posicion_convertir_a_puntero 256 (puntero_convertir_a_posicion 256 1000) ≡ 1000)
puntero-posicion_example = puntero-posicion 256 1000 (omega arith) (omega arith) (omega arith)

-- A context with the argument of '0' and the variable 'a'.
abbrev contexto : Contexto
contexto = record {
  id = 0;
  argumento = record { pagina = 2; offset = 0; size = 4 } ∷ [];
  variable = record { id = 97; posicion = record { pagina = 2; offset = 4; size = 4 } } ∷ [];
  ret_pos = 0;
  ret_var = record { pagina = 0; offset = 0; size = 0 };
}

definir-obtener_posicion_variable_example :
    (obtener_posicion_variable ⦃argumentos = listas_puras⦄ ⦃variables = listas_puras⦄ 256
        (definir_variable ⦃argumentos = listas_puras⦄ ⦃variables = listas_puras⦄ 256 contexto
          fin_de_pagina 98).0
        98
      ≡ (definir_variable ⦃argumentos = listas_puras⦄ ⦃variables = listas_puras⦄ 256 contexto
          fin_de_pagina 98).2)
    × ((otro : ℕ)
        → otro ≢ 98
        → obtener_posicion_variable ⦃argumentos = listas_puras⦄ ⦃variables = listas_puras⦄ 256
            (definir_variable ⦃argumentos = listas_puras⦄ ⦃variables = listas_puras⦄ 256 contexto
              fin_de_pagina 98).0
            otro
          ≡ obtener_posicion_variable ⦃argumentos = listas_puras⦄ ⦃variables = listas_puras⦄ 256
              contexto otro)
definir-obtener_posicion_variable_example =
    definir-obtener_posicion_variable ⦃argumentos = listas_puras⦄ ⦃variables = listas_puras⦄ 256
      contexto fin_de_pagina 98 refl refl
