-- ===== src/Pruebas/Contexto.antt =====
-- A process of two levels on its way to a CPU and back, src/kernel/kernel.c and src/cpu/cpu.c.
use tp_sisop_1c_2017_david.Prelude.{
  ℕ, ◌<◌, ◌^◌, ◌≡◌, refl, ◌>>=◌, some, List, [], ◌∷◌, pos, codes, arith,
}
use tp_sisop_1c_2017_david.Cpu.Posiciones.{Posicion}
use tp_sisop_1c_2017_david.Cpu.Variables.{Variable}
use tp_sisop_1c_2017_david.Cpu.Contexto.{PcbActivo, iniciar, cargar_pcb, respuesta_al_kernel}
use tp_sisop_1c_2017_david.Kernel.Contexto.{campos_contexto, actualizar_pcb, enviado}
use tp_sisop_1c_2017_david.Kernel.Estado.{ck_enviar_contexto}
use tp_sisop_1c_2017_david.Kernel.Planificacion.{Pcb, pcb_nulo}
use tp_sisop_1c_2017_david.Contexto.{Nivel}
use tp_sisop_1c_2017_david.Contexto.Lectura.{EsPosicion}
use tp_sisop_1c_2017_david.Contexto.Viaje.{nivel_en_kernel, mapear}
use tp_sisop_1c_2017_david.Contexto.Envio.{EsPcb, mensaje_con, en_cpu}
use tp_sisop_1c_2017_david.Contexto.Ida.{cargar-enviar_pcb}
use tp_sisop_1c_2017_david.Contexto.Respuesta.{EsActivo, tras_cpu}
use tp_sisop_1c_2017_david.Contexto.Vuelta.{en_cpu-EsActivo, actualizar-responder, ida-vuelta}

abbrev lugar : ℕ → Posicion
lugar offset = record { pagina = 2; offset = offset; size = 4 }

-- The main program with the variable a, and a function with an argument and the variable b.
abbrev pub niveles : List (Nivel Variable)
niveles =
    record {
      id = 0;
      argumento = [];
      variable = record { id = 97; posicion = lugar 0 } ∷ [];
      ret_pos = 0;
      ret_var = lugar 0;
    }
    ∷ record {
      id = 1;
      argumento = lugar 4 ∷ [];
      variable = record { id = 98; posicion = lugar 8 } ∷ [];
      ret_pos = 3;
      ret_var = lugar 0;
    }
    ∷ []

abbrev pub proceso : Pcb
proceso = record (pcb_nulo (pos 1)) {
  program_counter = 5;
  quantum = 3;
  stack_pagina = 2;
  stack_offset = 12;
  stack_size = 4;
  stack_level = 1;
  tam_pagina = 256;
  cantidad_rafagas = 7;
  stack = mapear nivel_en_kernel niveles;
  indice_etiquetas = record { etiquetas = codes "otra"; ubicacion = 2 } ∷ [];
  instrucciones =
      record { index = 0; pagina = 0; offset = 0; size = 5 }
      ∷ record { index = 1; pagina = 0; offset = 5; size = 9 }
      ∷ [];
}

pub proceso-EsPcb : EsPcb (codes "RR") (pos 2) proceso niveles
proceso-EsPcb =
    let o : 0 < 2 ^ 32 = omega arith in
    let b : (n : ℕ) → n < 100 → EsPosicion (lugar n) =
      λ n l. (omega arith, omega (arith, l), omega arith) in
    record {
      pid = omega arith;
      maximo = omega arith;
      numeros = (
        omega arith,
        (
          omega arith,
          (
            o,
            (
              omega arith,
              (
                omega arith,
                (omega arith, (omega arith, (omega arith, (omega arith, (o, (o, (o, tt))))))),
              ),
            ),
          ),
        ),
      );
      textos = ((omega arith, (refl, (refl, tt))), (omega arith, (refl, tt)));
      largos = (omega arith, omega arith, omega arith);
      etiquetas = (((omega arith, (refl, (refl, (refl, (refl, tt))))), omega arith), tt);
      pila = refl;
      validos = (
        (
          (o, o, b 0 (omega arith), tt, ((b 0 (omega arith), refl, (omega arith, (refl, tt))), tt)),
          omega arith,
          omega arith,
        ),
        (
          (
            (
              omega arith,
              omega arith,
              b 0 (omega arith),
              (b 4 (omega arith), tt),
              ((b 8 (omega arith), refl, (omega arith, (refl, tt))), tt),
            ),
            omega arith,
            omega arith,
          ),
          tt,
        ),
      );
      instrucciones = ((o, o, omega arith), ((o, omega arith, omega arith), tt));
    }

cargar-enviar_pcb_example :
    cargar_pcb 0 (mensaje_con ck_enviar_contexto (campos_contexto (codes "RR") (pos 2) proceso))
    ≡ some (en_cpu 0 (codes "RR") (pos 2) proceso niveles)
cargar-enviar_pcb_example = cargar-enviar_pcb (codes "RR") (pos 2) proceso niveles proceso-EsPcb 0

-- The process after the CPU asked to open a file.
abbrev en_ejecucion : PcbActivo
en_ejecucion = record (en_cpu 0 (codes "RR") (pos 2) proceso niveles) {
  direccion = codes "/a";
  creacion = 1;
}

en_ejecucion-EsActivo : EsActivo en_ejecucion
en_ejecucion-EsActivo =
    let a = en_cpu-EsActivo 0 (codes "RR") (pos 2) proceso niveles (omega arith) proceso-EsPcb in
    let n = a.numeros in
    record {
      numeros = (
        n.0,
        (
          n.1.0,
          (
            n.1.1.0,
            (
              n.1.1.1.0,
              (
                n.1.1.1.1.0,
                (
                  n.1.1.1.1.1.0,
                  (
                    n.1.1.1.1.1.1.0,
                    (
                      n.1.1.1.1.1.1.1.0,
                      (
                        n.1.1.1.1.1.1.1.1.0,
                        (n.1.1.1.1.1.1.1.1.1.0, (omega arith, n.1.1.1.1.1.1.1.1.1.1.1)),
                      ),
                    ),
                  ),
                ),
              ),
            ),
          ),
        ),
      );
      textos = ((refl, (refl, tt)), tt, tt);
      largos = a.largos;
      etiquetas = a.etiquetas;
      validos = a.validos;
    }

actualizar-responder_example :
    actualizar_pcb proceso (mensaje_con 108 (respuesta_al_kernel en_ejecucion))
    ≡ some (tras_cpu proceso en_ejecucion)
actualizar-responder_example = actualizar-responder 108 en_ejecucion en_ejecucion-EsActivo proceso

ida-vuelta_example :
    (cargar_pcb 0 (mensaje_con ck_enviar_contexto (campos_contexto (codes "RR") (pos 2) proceso))
      >>= λ p. actualizar_pcb (enviado proceso) (mensaje_con 108 (respuesta_al_kernel (iniciar p))))
    ≡ some (record proceso { cantidad_rafagas = 0; direccion = codes "-"; informacion = codes "-" })
ida-vuelta_example = ida-vuelta 0 108 (codes "RR") (pos 2) proceso niveles proceso-EsPcb
