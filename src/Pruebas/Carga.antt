-- ===== src/Pruebas/Carga.antt =====
-- The loading of scripts by src/kernel/kernel.c, with the memory server of the program and with one that
-- is full.
use tp_sisop_1c_2017_david.Prelude.{
  ℕ, pos, minus_one, true, ◌≡◌, refl, Option, none, some, List, [], ◌∷◌, ◌++◌, codes, arith,
}
use tp_sisop_1c_2017_david.Kernel.Minify.{get_cadena_contatenada}
use tp_sisop_1c_2017_david.Kernel.Planificacion.{Pcb, pcb_nulo}
use tp_sisop_1c_2017_david.Kernel.Carga.{Servidor, cargar_paginas, reservar_memoria_para_proceso}
use tp_sisop_1c_2017_david.Kernel.Carga.Paginas.{Cargado}
use tp_sisop_1c_2017_david.Memoria.Marco.{contar}
use tp_sisop_1c_2017_david.Memoria.Estado.{Memoria}
use tp_sisop_1c_2017_david.Memoria.Paginas.Inicio.{estado_inicial-ubicar}
use tp_sisop_1c_2017_david.Sistema.{atender_consulta, hilo_kernel}
use tp_sisop_1c_2017_david.Sistema.Lugar.{HayLugar}
use tp_sisop_1c_2017_david.Sistema.Carga.{
  LugarEn, hilo_kernel-Guarda, reservar_memoria_para_proceso-hilo,
}
use tp_sisop_1c_2017_david.Pruebas.Memoria.{listas, config, vacia, vacia-Coherente, uno}
use tp_sisop_1c_2017_david.Kernel.Carga.Lleno.{cargar_paginas_lleno}

-- The pages of the one process.
abbrev Hojas : Type 0
Hojas = ℕ → List ℕ

abbrev hola : Pcb
hola = record (pcb_nulo (pos 1)) { script = codes "begin\nend" }

hola_preparado : get_cadena_contatenada hola.script ≡ some (codes "beginend")
unfolding get_cadena_contatenada
hola_preparado = refl

-- The two frames of the empty server whose blocks lie inside the allocation are free: one for the script, one for the
-- stack.
hay_dos : HayLugar 40 2 (pos 1) 0 vacia
unfolding contar
hay_dos = record {
  valida = vacia-Coherente.valida;
  marco = refl;
  proceso = uno.1;
  faltan = λ j h. estado_inicial-ubicar config (omega arith) (omega arith) (pos 1) (pos j) uno.1;
  hay = omega arith;
}

reservar_memoria_para_proceso-hilo_example :
    (r : Option Memoria × Pcb) × (◌≡◌ {A = Option (Option Memoria × Pcb)}
      (reservar_memoria_para_proceso hilo_kernel 20 (some vacia) hola)
      (some r))
    × Cargado hilo_kernel 40 atender_consulta
        (LugarEn 40)
        (hilo_kernel-Guarda 40 (omega arith))
        (omega arith)
        (codes "beginend")
        hola
        r
reservar_memoria_para_proceso-hilo_example =
    reservar_memoria_para_proceso-hilo 40 (omega arith) 20 (codes "beginend") vacia hola 1
      hola_preparado hay_dos (omega arith) (omega arith)

abbrev lleno : Servidor Hojas
lleno = record { reservar = λ m pid k. (m, (true, (minus_one, 0))); guardar = λ m pid k b. m }

cargar_paginas_lleno_example :
    ◌≡◌ {A = Option (Hojas × Pcb)}
      (cargar_paginas lleno 1000 (codes "end" ++ (0 ∷ [])) 0 (λ k. []) hola)
      none
cargar_paginas_lleno_example =
    cargar_paginas_lleno lleno (λ m pid k. refl) 1000 (codes "end" ++ (0 ∷ [])) 0 (λ k. []) hola
      (omega arith)
