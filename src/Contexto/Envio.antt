-- ===== src/Contexto/Envio.antt =====
-- A process that survives the way to a CPU, enviarPCBAlCPU of src/kernel/kernel.c, and the fields of its message.
use tp_sisop_1c_2017_david.Prelude.{
  ℕ, ◌⊎◌, inl, ◌≡◌, refl, List, [], ◌∷◌, ℤ, pos, EsInt32, palabra, length, codes, All,
}
use tp_sisop_1c_2017_david.Comunicacion.{Mensaje, com_nuevo_mensaje}
use tp_sisop_1c_2017_david.Comunicacion.Campos.{Campo, numero, texto, EsCampo}
use tp_sisop_1c_2017_david.Comunicacion.Secuencias.{agregar_campos, sin_signo, entero-EsInt32}
use tp_sisop_1c_2017_david.Comunicacion.Seleccion.{All-mapear, All-numerados, Todas}
use tp_sisop_1c_2017_david.Cpu.Variables.{Variable}
use tp_sisop_1c_2017_david.Contexto.{Nivel}
use tp_sisop_1c_2017_david.Contexto.Lectura.{EsPalabra, EsTexto}
use tp_sisop_1c_2017_david.Contexto.Validos.{
  EsEtiqueta, EsCodigo, EsLargo, EsNivelValido, campo_fijo, limpio, EsCampo-codigo,
}
use tp_sisop_1c_2017_david.Contexto.Partes.{clase}
use tp_sisop_1c_2017_david.Kernel.Planificacion.{Pcb}
use tp_sisop_1c_2017_david.Kernel.Contexto.{campos_fijos_contexto, campos_instruccion}
use tp_sisop_1c_2017_david.Cpu.Contexto.{formato_cpu, PcbActivo, rafagas_iniciales}
use tp_sisop_1c_2017_david.Contexto.Viaje.{mapear, nivel_en_kernel, codigo_en_cpu, campos_codigos}

-- A PCB that survives the way to a CPU, with the levels of its stack as a CPU has them.
pub record EsPcb (algoritmo : List ℕ) (stack_max_size : ℤ) (pcb : Pcb)
    (niveles : List (Nivel Variable)) : Type 0 where
  pub pid : EsInt32 pcb.pid
  pub maximo : EsInt32 stack_max_size
  pub numeros : All EsPalabra (
      pcb.program_counter ∷ pcb.quantum ∷ pcb.quantum_sleep ∷ pcb.stack_pagina ∷ pcb.stack_offset
      ∷ pcb.stack_size ∷ pcb.stack_level ∷ pcb.tam_pagina ∷ pcb.cantidad_rafagas
      ∷ pcb.fui_a_entrada_salida ∷ pcb.primer_pagina_heap ∷ pcb.descriptor ∷ [])
  pub textos : EsTexto algoritmo × EsTexto pcb.informacion
  pub largos :
      EsLargo (length pcb.indice_etiquetas)
      × EsLargo (length niveles)
      × EsLargo (length pcb.instrucciones)
  pub etiquetas : All EsEtiqueta pcb.indice_etiquetas
  pub pila : pcb.stack ≡ mapear nivel_en_kernel niveles
  pub validos : All (EsNivelValido formato_cpu) niveles
  pub instrucciones : All (λ i. EsCodigo (codigo_en_cpu i)) pcb.instrucciones

-- The message with the fields.
abbrev pub mensaje_con : ℕ → List (List ℕ × Campo) → Mensaje
mensaje_con tipo campos = agregar_campos (com_nuevo_mensaje tipo) campos

-- The process as a CPU has it.
abbrev pub en_cpu : ℕ → List ℕ → ℤ → Pcb → List (Nivel Variable) → PcbActivo
en_cpu estado algoritmo stack_max_size pcb niveles = record {
  pid = palabra pcb.pid;
  program_counter = pcb.program_counter;
  quantum = pcb.quantum;
  estado_en_cpu = estado;
  stack_pointer = record {
    pagina = pcb.stack_pagina;
    offset = pcb.stack_offset;
    size = pcb.stack_size;
  };
  stack_level = pcb.stack_level;
  indice_codigo = mapear codigo_en_cpu pcb.instrucciones;
  indice_etiquetas = pcb.indice_etiquetas;
  indice_stack = niveles;
  tam_pagina = pcb.tam_pagina;
  quantum_retardo = pcb.quantum_sleep;
  direccion = [];
  lectura = 0;
  escritura = 0;
  creacion = 0;
  descriptor = pcb.descriptor;
  offset_arch = 0;
  informacion_escribir = [];
  informacion_leer = pcb.informacion;
  tam_a_escribir = 0;
  cantidad_rafagas = rafagas_iniciales pcb.program_counter pcb.cantidad_rafagas;
  volvio_entrada_salida = pcb.fui_a_entrada_salida;
  algoritmo = algoritmo;
  stack_max_size = palabra stack_max_size;
  nombre_semaforo = [];
  primer_pagina_heap = pcb.primer_pagina_heap;
}

module _ (algoritmo : List ℕ) (stack_max_size : ℤ) (pcb : Pcb) (niveles : List (Nivel Variable))
    (h : EsPcb algoritmo stack_max_size pcb niveles) where
  pub fijos-EsCampo : All EsCampo (campos_fijos_contexto algoritmo stack_max_size pcb)
  unfolding limpio
  fijos-EsCampo =
      let n = h.numeros in
      (
        campo_fijo (codes "pid") (numero pcb.pid) refl h.pid,
        (
          campo_fijo (codes "progCounter") (sin_signo pcb.program_counter) refl
              (entero-EsInt32 pcb.program_counter n.0),
          (
            campo_fijo (codes "quantum") (sin_signo pcb.quantum) refl
                (entero-EsInt32 pcb.quantum n.1.0),
            (
              campo_fijo (codes "algoritmo") (texto algoritmo) refl h.textos.0,
              (
                campo_fijo (codes "quantumSleep") (sin_signo pcb.quantum_sleep) refl
                    (entero-EsInt32 pcb.quantum_sleep n.1.1.0),
                (
                  campo_fijo (codes "stackPagina") (sin_signo pcb.stack_pagina) refl
                      (entero-EsInt32 pcb.stack_pagina n.1.1.1.0),
                  (
                    campo_fijo (codes "stackOffset") (sin_signo pcb.stack_offset) refl
                        (entero-EsInt32 pcb.stack_offset n.1.1.1.1.0),
                    (
                      campo_fijo (codes "stackSize") (sin_signo pcb.stack_size) refl
                          (entero-EsInt32 pcb.stack_size n.1.1.1.1.1.0),
                      (
                        campo_fijo (codes "stackLevel") (sin_signo pcb.stack_level) refl
                            (entero-EsInt32 pcb.stack_level n.1.1.1.1.1.1.0),
                        (
                          campo_fijo (codes "tamPagina") (sin_signo pcb.tam_pagina) refl
                              (entero-EsInt32 pcb.tam_pagina n.1.1.1.1.1.1.1.0),
                          (
                            campo_fijo (codes "cantidad_rafagas") (sin_signo pcb.cantidad_rafagas)
                                refl (entero-EsInt32 pcb.cantidad_rafagas n.1.1.1.1.1.1.1.1.0),
                            (
                              campo_fijo (codes "volviEntradaSalida")
                                  (sin_signo pcb.fui_a_entrada_salida) refl
                                  (entero-EsInt32 pcb.fui_a_entrada_salida n.1.1.1.1.1.1.1.1.1.0),
                              (
                                campo_fijo (codes "stackMaxSize") (numero stack_max_size) refl
                                    h.maximo,
                                (
                                  campo_fijo (codes "primerPaginaHeap")
                                      (sin_signo pcb.primer_pagina_heap) refl
                                      (entero-EsInt32 pcb.primer_pagina_heap
                                        n.1.1.1.1.1.1.1.1.1.1.0),
                                  (
                                    campo_fijo (codes "infoLectura") (texto pcb.informacion) refl
                                        h.textos.1,
                                    (
                                      campo_fijo (codes "cantidad_rafagas")
                                          (sin_signo pcb.cantidad_rafagas) refl
                                          (entero-EsInt32 pcb.cantidad_rafagas n.1.1.1.1.1.1.1.1.0),
                                      (
                                        campo_fijo (codes "descriptor") (sin_signo pcb.descriptor)
                                            refl
                                            (entero-EsInt32 pcb.descriptor
                                              n.1.1.1.1.1.1.1.1.1.1.1.0),
                                        (
                                          campo_fijo (codes "contEtiquetas")
                                              (numero (pos (length pcb.indice_etiquetas))) refl
                                              h.largos.0,
                                          tt,
                                        ),
                                      ),
                                    ),
                                  ),
                                ),
                              ),
                            ),
                          ),
                        ),
                      ),
                    ),
                  ),
                ),
              ),
            ),
          ),
        ),
      )

  pub fijos-clase : Todas clase 0 (campos_fijos_contexto algoritmo stack_max_size pcb)
  unfolding clase
  fijos-clase = (
    refl,
    (
      refl,
      (
        refl,
        (
          refl,
          (
            refl,
            (
              refl,
              (
                refl,
                (
                  refl,
                  (
                    refl,
                    (refl, (refl, (refl, (refl, (refl, (refl, (refl, (refl, (refl, tt))))))))),
                  ),
                ),
              ),
            ),
          ),
        ),
      ),
    ),
  )

  pub propios :
      All
        (λ c. (clase c.0 ≡ 0) ⊎ (clase c.0 ≡ 5))
        (campos_fijos_contexto algoritmo stack_max_size pcb)
  propios =
      All-mapear (λ c. clase c.0 ≡ 0) (λ c. (clase c.0 ≡ 0) ⊎ (clase c.0 ≡ 5)) (λ c e. inl e)
        (campos_fijos_contexto algoritmo stack_max_size pcb) fijos-clase

  pub codigos-EsCampo : All EsCampo (campos_codigos pcb.instrucciones)
  unfolding limpio
  codigos-EsCampo = (
    campo_fijo (codes "cantInst") (numero (pos (length pcb.instrucciones))) refl h.largos.2,
    All-numerados campos_instruccion EsCampo (λ i. EsCodigo (codigo_en_cpu i))
        (λ i x e. EsCampo-codigo i (codigo_en_cpu x) e) 0 pcb.instrucciones h.instrucciones,
  )
