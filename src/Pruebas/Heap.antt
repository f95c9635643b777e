-- ===== src/Pruebas/Heap.antt =====
-- Heap pages of src/kernel/heapmemo.c, of 256 bytes and for the loss of a size of 300.
use tp_sisop_1c_2017_david.Prelude.{
  ℕ, ℤ, pos, minus_one, ◌≡◌, refl, some, List, [], ◌∷◌, inl, inr, replicate, ◌++◌, bytes_de_palabra,
  palabra_de_bytes, escribir_bytes, leer_bytes, arith,
}
use tp_sisop_1c_2017_david.Kernel.Heap.{
  get_heap_block, reservar_espacio_pagina, liberar_espacio, compactar, minus_two,
}
use tp_sisop_1c_2017_david.Kernel.Heap.Bloques.{Bloque, libre, usado}
use tp_sisop_1c_2017_david.Kernel.Heap.Cadena.{EsHeap, cabecera}
use tp_sisop_1c_2017_david.Kernel.Heap.Compactar.{compactar_pierde_size}
use tp_sisop_1c_2017_david.Kernel.Heap.Maximo.{reservar_espacio_maximo}
use tp_sisop_1c_2017_david.Kernel.Heap.Reservar.{reservar_espacio_pagina_lem, Reserva}
use tp_sisop_1c_2017_david.Kernel.Heap.Liberar.{liberar_espacio_lem, reservar-liberar, Liberada}

abbrev ceros : ℕ → ℕ
ceros p = 0

-- A page of 64 bytes with 20 and then 10 of them in use.
abbrev pagina_dos : List ℕ
pagina_dos =
    cabecera (usado 20)
    ++ (replicate 20 7
        ++ (cabecera (usado 10) ++ (replicate 10 8 ++ (cabecera (libre 19) ++ replicate 19 0))))

abbrev bloques_dos : List Bloque
bloques_dos = usado 20 ∷ usado 10 ∷ libre 19 ∷ []

pagina_dos-EsHeap : EsHeap 64 pagina_dos bloques_dos
unfolding leer_bytes bytes_de_palabra
pagina_dos-EsHeap = record {
  cadena = (
    record { leida = refl; alcanza = omega arith },
    (
      record { leida = refl; alcanza = omega arith },
      (record { leida = refl; alcanza = omega arith }, refl),
    ),
  );
  largo = refl;
  cabe = omega arith;
}

-- The page with 9 bytes more in use.
abbrev pagina_tres : List ℕ
pagina_tres =
    cabecera (usado 20)
    ++ (replicate 20 7
        ++ (cabecera (usado 10)
            ++ (replicate 10 8
                ++ (cabecera (usado 9)
                    ++ (replicate 9 0 ++ (cabecera (libre 5) ++ replicate 5 0))))))

tercera_reserva : reservar_espacio_pagina 64 pagina_dos 9 ≡ some (pagina_tres, pos 45)
unfolding leer_bytes escribir_bytes bytes_de_palabra palabra_de_bytes reservar_espacio_pagina
tercera_reserva = refl

demasiado : reservar_espacio_pagina 64 pagina_dos 55 ≡ some (pagina_dos, minus_one)
unfolding leer_bytes escribir_bytes bytes_de_palabra palabra_de_bytes reservar_espacio_pagina
demasiado = refl

sin_espacio : reservar_espacio_pagina 64 pagina_dos 14 ≡ some (pagina_dos, minus_two)
unfolding leer_bytes escribir_bytes bytes_de_palabra palabra_de_bytes reservar_espacio_pagina
sin_espacio = refl

reservar_espacio_pagina_example :
    (q : List ℕ) × (r : ℤ) × (reservar_espacio_pagina 64 pagina_dos 9 ≡ some (q, r))
    × Reserva 64 9 pagina_dos bloques_dos q r
reservar_espacio_pagina_example =
    reservar_espacio_pagina_lem 64 9 pagina_dos bloques_dos pagina_dos-EsHeap

liberar_espacio_example :
    (q : List ℕ) × (liberar_espacio ceros 64 pagina_dos 30 ≡ some q)
    × Liberada 64 30 pagina_dos bloques_dos q
liberar_espacio_example =
    liberar_espacio_lem ceros 64 30 10 pagina_dos bloques_dos (λ p. omega arith) (omega arith)
      pagina_dos-EsHeap (inr (inl (refl, refl)))

reservar-liberar_example :
    (q : List ℕ) × (liberar_espacio ceros 64 pagina_tres 45 ≡ some q) × EsHeap 64 q bloques_dos
reservar-liberar_example =
    reservar-liberar ceros 64 9 45 pagina_dos pagina_tres bloques_dos (λ p. omega arith)
      (omega arith) pagina_dos-EsHeap tt tercera_reserva

-- Two free blocks of 100 and 190 bytes, which should become one of 295.
abbrev pagina_libres : List ℕ
pagina_libres =
    cabecera (libre 100) ++ (replicate 100 0 ++ (cabecera (libre 190) ++ replicate 190 0))

pagina_libres-EsHeap : EsHeap 300 pagina_libres (libre 100 ∷ libre 190 ∷ [])
unfolding leer_bytes bytes_de_palabra
pagina_libres-EsHeap = record {
  cadena = (
    record { leida = refl; alcanza = omega arith },
    (record { leida = refl; alcanza = omega arith }, refl),
  );
  largo = refl;
  cabe = omega arith;
}

compactar_pierde_size_example :
    (q : List ℕ) × (compactar ceros 300 pagina_libres ≡ some q)
    × (get_heap_block q 0 ≡ some (record { is_used = 0; size = 39; puntero = 5 }))
compactar_pierde_size_example =
    compactar_pierde_size ceros (λ p. omega arith) 300 100 190 pagina_libres pagina_libres-EsHeap

reservar_espacio_maximo_example :
    reservar_espacio_pagina 64 pagina_dos 54 ≡ some (pagina_dos, minus_two)
reservar_espacio_maximo_example =
    reservar_espacio_maximo 64 54 pagina_dos bloques_dos refl pagina_dos-EsHeap
