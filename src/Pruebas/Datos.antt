-- ===== src/Pruebas/Datos.antt =====
-- Reads and writes of src/memoria/memoria.c on the memory of `Pruebas.Memoria`.
use tp_sisop_1c_2017_david.Prelude.{ℕ, ℤ, pos, negsuc, ◌≡◌, ◌≢◌, some, [], ◌∷◌, arith}
use tp_sisop_1c_2017_david.Memoria.Marco.{buscar_desde}
use tp_sisop_1c_2017_david.Memoria.Estado.{Memoria}
use tp_sisop_1c_2017_david.Memoria.Paginas.{reservar_pagina}
use tp_sisop_1c_2017_david.Memoria.Paginas.Invariante.{ubicar}
use tp_sisop_1c_2017_david.Memoria.Paginas.Guardar.{contenido}
use tp_sisop_1c_2017_david.Memoria.Datos.{
  leer_dato_int, guardar_dato_int, leer_dato_string, guardar_dato_string,
}
use tp_sisop_1c_2017_david.Memoria.Datos.Coherencia.{Coherente}
use tp_sisop_1c_2017_david.Memoria.Datos.Enteros.{guardar-leer_dato_int}
use tp_sisop_1c_2017_david.Memoria.Datos.Cadenas.{guardar-leer_dato_string}
use tp_sisop_1c_2017_david.Pruebas.Memoria.{
  uno, con_dos, con_dos-Coherente, donde_1, pagina, listas,
}

guardar-leer_dato_int_example :
    (s' : Memoria) × (guardar_dato_int con_dos (pos 1) (pos 1) 8 4 (negsuc 41) ≡ some (pos 0, s'))
    × Coherente s'
    × ((q g : ℤ) → ubicar s' q g ≡ ubicar con_dos q g)
    × ((j : ℕ) → j ≢ 5 → contenido s' j ≡ contenido con_dos j)
    × ((s'' : Memoria) × (leer_dato_int (pos 0) s' (pos 1) (pos 1) 8 4 ≡ some (negsuc 41, s'')))
unfolding reservar_pagina buscar_desde
guardar-leer_dato_int_example =
    guardar-leer_dato_int (pos 1) (pos 1) 8 (negsuc 41) (pos 0) con_dos-Coherente uno donde_1
      (omega arith) (omega arith) (omega arith)

guardar-leer_dato_string_example :
    (s' : Memoria) × (guardar_dato_string (pos 9) con_dos (pos 1) (pos 1) 8 3 pagina
      ≡ some (pos 0, s'))
    × Coherente s'
    × ((q g : ℤ) → ubicar s' q g ≡ ubicar con_dos q g)
    × ((j : ℕ) → j ≢ 5 → contenido s' j ≡ contenido con_dos j)
    × ((s'' : Memoria) × (leer_dato_string s' (pos 1) (pos 1) 8 3
          ≡ some (some (7 ∷ 7 ∷ 7 ∷ 0 ∷ []), s'')))
unfolding reservar_pagina buscar_desde
guardar-leer_dato_string_example =
    guardar-leer_dato_string (pos 1) (pos 1) 8 3 pagina (pos 9) con_dos-Coherente uno donde_1
      (omega arith) (omega arith) (omega arith)
