-- ===== src/Pruebas/Memoria.antt =====
-- The memory server of src/memoria/memoria.c with ten frames of 40 bytes, of which the table takes four.
use tp_sisop_1c_2017_david.Prelude.{
  ℕ, ◌+◌, ◌≤◌, ◌<◌, ℤ, pos, minus_one, eqb_ℤ, ◌≡◌, ◌≢◌, refl, ◌⊎◌, none, some, List, replicate,
  if◌then◌else◌, Commons, listas_puras, arith,
}
use tp_sisop_1c_2017_david.Memoria.Marco.{buscar_desde, contar, es_libre}
use tp_sisop_1c_2017_david.Memoria.Cache.{
  crear_cache, pagina_a_reemplazar_en_cache, agregar_a_cache, cant_veces_pid_en_cache,
  esta_la_pag_en_cache,
}
use tp_sisop_1c_2017_david.Memoria.Estado.{Memoria, Config, estado_inicial, inicializar_estructuras}
use tp_sisop_1c_2017_david.Memoria.Paginas.{
  reservar_pagina, guardar_pagina, liberar_pagina, finalizar_proceso, exit_success, exit_failure,
}
use tp_sisop_1c_2017_david.Memoria.Paginas.Invariante.{IsValid, ubicar, de_procesos}
use tp_sisop_1c_2017_david.Memoria.Paginas.Inicio.{inicializar_estructuras_lem}
use tp_sisop_1c_2017_david.Memoria.Paginas.Reservar.{Reservada, reservar_pagina_lem}
use tp_sisop_1c_2017_david.Memoria.Paginas.Liberar.{Liberada, liberar_pagina_lem}
use tp_sisop_1c_2017_david.Memoria.Paginas.Finalizar.{Eliminado, sin_rastro, finalizar_proceso_lem}
use tp_sisop_1c_2017_david.Memoria.Paginas.Guardar.{Guardada, guardar_pagina_lem}
use tp_sisop_1c_2017_david.Memoria.Datos.{buscar_bloque}
use tp_sisop_1c_2017_david.Memoria.Datos.Coherencia.{
  Coherente, SoloCache, EsProceso, con_pagina, con_pagina-Coherente, buscar_bloque_lem,
}
use tp_sisop_1c_2017_david.Memoria.Datos.Conserva.{
  estado_inicial-Coherente, reservar_pagina-Coherente, finalizar_proceso-Coherente,
  liberar_pagina_deja_cache,
}

abbrev pub config : Config
config = record {
  marcos = 10;
  marco_size = 40;
  retardo_memoria = pos 100;
  entradas_cache = 2;
  cache_x_proc = 1;
}

abbrev pub vacia : Memoria
vacia = estado_inicial config

instance abbrev pub listas : Commons ℤ
listas = listas_puras

-- Process 1 with pages 0 and 1.
abbrev pub con_una : Memoria
con_una = (reservar_pagina vacia (pos 1) (pos 0)).0

abbrev pub con_dos : Memoria
con_dos = (reservar_pagina con_una (pos 1) (pos 1)).0

pub uno : EsProceso (pos 1)
uno = (λ e. cc, λ e. cc)

pub vacia-Coherente : Coherente vacia
vacia-Coherente = estado_inicial-Coherente config (omega arith) (omega arith) (omega arith)

inicializar_estructuras_example :
    (s : Memoria) × (inicializar_estructuras config ≡ some s)
    × IsValid s
    × ((pid pag : ℤ) → pid ≢ minus_one → ubicar s pid pag ≡ none)
    × (s.frames_ocupados ≡ pos 4)
inicializar_estructuras_example = inicializar_estructuras_lem config (omega arith) (omega arith)

con_una-Coherente : Coherente con_una
unfolding buscar_desde
con_una-Coherente = reservar_pagina-Coherente (pos 1) (pos 0) vacia-Coherente uno.1 refl

pub con_dos-Coherente : Coherente con_dos
unfolding buscar_desde reservar_pagina
con_dos-Coherente = reservar_pagina-Coherente (pos 1) (pos 1) con_una-Coherente uno.1 refl

pub donde_0 : ubicar con_dos (pos 1) (pos 0) ≡ some 4
unfolding buscar_desde reservar_pagina
donde_0 = refl

pub donde_1 : ubicar con_dos (pos 1) (pos 1) ≡ some 5
unfolding buscar_desde reservar_pagina
donde_1 = refl

-- The pages of process 1 fill the two frames whose blocks lie inside the allocation.
no_hay_2 : ubicar con_dos (pos 1) (pos 2) ≡ none
unfolding buscar_desde reservar_pagina
no_hay_2 = refl

abbrev pub pagina : List ℕ
pagina = replicate 40 7

reservar_pagina_example :
    ((contar es_libre (de_procesos con_dos) ≡ 0)
      × (reservar_pagina con_dos (pos 1) (pos 2) ≡ (con_dos, exit_failure)))
    ⊎ (Reservada con_dos (pos 1) (pos 2) (reservar_pagina con_dos (pos 1) (pos 2)).0
        × IsValid (reservar_pagina con_dos (pos 1) (pos 2)).0
        × ((reservar_pagina con_dos (pos 1) (pos 2)).1 ≡ exit_success))
reservar_pagina_example =
    reservar_pagina_lem (pos 1) (pos 2) con_dos-Coherente.valida uno.1 no_hay_2

liberar_pagina_example :
    ((ubicar con_dos (pos 1) (pos 0) ≡ none)
      × (liberar_pagina con_dos (pos 1) (pos 0) ≡ some (con_dos, exit_failure)))
    ⊎ ((ubicar con_dos (pos 1) (pos 0) ≢ none)
        × ((s' : Memoria) × (liberar_pagina con_dos (pos 1) (pos 0) ≡ some (s', exit_success))
            × Liberada con_dos (pos 1) (pos 0) s'
            × IsValid s'))
liberar_pagina_example = liberar_pagina_lem (pos 1) (pos 0) con_dos-Coherente.valida uno.1

finalizar_proceso_example :
    (s' : Memoria) × (finalizar_proceso con_dos (pos 1) ≡ some (s', exit_success))
    × Eliminado (sin_rastro con_dos (pos 1)) (pos 1) 0 s'
    × IsValid s'
finalizar_proceso_example = finalizar_proceso_lem (pos 1) con_dos-Coherente.valida uno.1

guardar_pagina_example :
    ((ubicar con_dos (pos 1) (pos 1) ≡ none)
      × (guardar_pagina con_dos (pos 1) (pos 1) pagina ≡ some (con_dos, exit_failure)))
    ⊎ ((k : ℕ) × (ubicar con_dos (pos 1) (pos 1) ≡ some k)
        × (((k + 4 < 10)
              × ((s' : Memoria) × (guardar_pagina con_dos (pos 1) (pos 1) pagina
                    ≡ some (s', exit_success))
                  × Guardada con_dos k pagina s'))
            ⊎ ((10 ≤ k + 4) × (guardar_pagina con_dos (pos 1) (pos 1) pagina ≡ none))))
unfolding reservar_pagina buscar_desde
guardar_pagina_example =
    guardar_pagina_lem (pos 1) (pos 1) pagina con_dos-Coherente.valida (omega arith) (omega arith)

buscar_bloque_example :
    (s' : Memoria) × (buscar_bloque con_dos (pos 1) (pos 1)
      ≡ some (ubicar con_dos (pos 1) (pos 1), s'))
    × SoloCache con_dos s'
    × Coherente s'
buscar_bloque_example = buscar_bloque_lem (pos 1) (pos 1) con_dos-Coherente uno

reservar_pagina-Coherente_example : Coherente (reservar_pagina con_dos (pos 1) (pos 2)).0
reservar_pagina-Coherente_example =
    reservar_pagina-Coherente (pos 1) (pos 2) con_dos-Coherente uno.1 no_hay_2

finalizar_proceso-Coherente_example :
    (s' : Memoria) × (finalizar_proceso con_dos (pos 1) ≡ some (s', exit_success))
    × Coherente s'
    × ((q : ℤ)
        → q ≢ pos 0
        → cant_veces_pid_en_cache q s'.cache
          ≡ (if eqb_ℤ q (pos 1) then 0 else cant_veces_pid_en_cache q con_dos.cache))
finalizar_proceso-Coherente_example = finalizar_proceso-Coherente (pos 1) con_dos-Coherente uno.1

-- Page 0 in cache entry 0.
abbrev en_cache : Memoria
en_cache = con_pagina con_dos (pos 1) (pos 0) 4

en_cache-Coherente : Coherente en_cache
en_cache-Coherente = (con_pagina-Coherente (pos 1) (pos 0) 4 con_dos-Coherente uno donde_0).1

en_cache_acierto : esta_la_pag_en_cache en_cache.cache (pos 1) (pos 0) ≡ some 0
unfolding esta_la_pag_en_cache agregar_a_cache pagina_a_reemplazar_en_cache cant_veces_pid_en_cache
    reservar_pagina crear_cache buscar_desde
en_cache_acierto = refl

en_cache_donde : ubicar en_cache (pos 1) (pos 0) ≢ none
unfolding buscar_desde reservar_pagina crear_cache
en_cache_donde e = cc

liberar_pagina_deja_cache_example :
    (s' : Memoria) × (s'' : Memoria) × (liberar_pagina en_cache (pos 1) (pos 0)
      ≡ some (s', exit_success))
    × (ubicar s' (pos 1) (pos 0) ≡ none)
    × (buscar_bloque s' (pos 1) (pos 0) ≡ some (ubicar en_cache (pos 1) (pos 0), s''))
liberar_pagina_deja_cache_example =
    liberar_pagina_deja_cache (pos 1) (pos 0) en_cache-Coherente uno en_cache_donde en_cache_acierto
