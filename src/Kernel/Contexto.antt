-- ===== src/Kernel/Contexto.antt =====
-- The PCB on its way to a CPU and back: enviarPCBAlCPU and actualizarPCB of src/kernel/kernel.c. A message that
-- is sent is its fields, in order. `none` is a fault; a NULL text counts as one where it is read, so
-- that `informacion` is never NULL here.
use tp_sisop_1c_2017_david.Prelude.{
  ℕ, ◌++◌, ◌>>=◌, Option, some, List, [], ◌∷◌, ℤ, pos, length, codes,
}
use tp_sisop_1c_2017_david.Comunicacion.{Mensaje, com_leer_int}
use tp_sisop_1c_2017_david.Comunicacion.Campos.{Campo, numero, texto}
use tp_sisop_1c_2017_david.Comunicacion.Secuencias.{
  sin_signo, leer_sin_signo, leer_lista, numerados, vueltas,
}
use tp_sisop_1c_2017_david.Contexto.{
  Formato, campos_etiqueta, campos_nivel, campos_codigo, leer_texto, leer_etiqueta, leer_nivel,
}
use tp_sisop_1c_2017_david.Kernel.Minify.{MapInstruccion}
use tp_sisop_1c_2017_david.Kernel.Planificacion.{Pcb, VariablesStack}

abbrev pub formato_kernel : Formato VariablesStack
formato_kernel = record {
  nombre = λ v. v.id;
  posicion = λ v. v.posicion;
  construir = λ id posicion. record { id = id; posicion = posicion };
}

-- What a CPU is told of an instruction.
abbrev pub campos_instruccion : ℕ → MapInstruccion → List (List ℕ × Campo)
campos_instruccion c elem =
    campos_codigo c (record { pagina = elem.pagina; offset = elem.offset; size = elem.size })

-- The fields with names of their own, up to the labels.
abbrev pub campos_fijos_contexto : List ℕ → ℤ → Pcb → List (List ℕ × Campo)
campos_fijos_contexto algoritmo stack_max_size pcb =
    (codes "pid", numero pcb.pid)
    ∷ (codes "progCounter", sin_signo pcb.program_counter)
    ∷ (codes "quantum", sin_signo pcb.quantum)
    ∷ (codes "algoritmo", texto algoritmo)
    ∷ (codes "quantumSleep", sin_signo pcb.quantum_sleep)
    ∷ (codes "stackPagina", sin_signo pcb.stack_pagina)
    ∷ (codes "stackOffset", sin_signo pcb.stack_offset)
    ∷ (codes "stackSize", sin_signo pcb.stack_size)
    ∷ (codes "stackLevel", sin_signo pcb.stack_level)
    ∷ (codes "tamPagina", sin_signo pcb.tam_pagina)
    ∷ (codes "cantidad_rafagas", sin_signo pcb.cantidad_rafagas)
    ∷ (codes "volviEntradaSalida", sin_signo pcb.fui_a_entrada_salida)
    ∷ (codes "stackMaxSize", numero stack_max_size)
    ∷ (codes "primerPaginaHeap", sin_signo pcb.primer_pagina_heap)
    ∷ (codes "infoLectura", texto pcb.informacion)
    ∷ (codes "cantidad_rafagas", sin_signo pcb.cantidad_rafagas)
    ∷ (codes "descriptor", sin_signo pcb.descriptor)
    ∷ (codes "contEtiquetas", numero (pos (length pcb.indice_etiquetas)))
    ∷ []

-- The message of `enviarPCBAlCPU`.
abbrev pub campos_contexto : List ℕ → ℤ → Pcb → List (List ℕ × Campo)
campos_contexto algoritmo stack_max_size pcb =
    campos_fijos_contexto algoritmo stack_max_size pcb
    ++ (numerados campos_etiqueta 0 pcb.indice_etiquetas
        ++ (((codes "contStack", numero (pos (length pcb.stack))) ∷ [])
            ++ (numerados (campos_nivel formato_kernel) 0 pcb.stack
                ++ (((codes "cantInst", numero (pos (length pcb.instrucciones))) ∷ [])
                    ++ numerados campos_instruccion 0 pcb.instrucciones))))

-- What `enviarPCBAlCPU` leaves in the PCB; the buffer that it gives `direccion` is not read before
-- `actualizarPCB` replaces it.
abbrev pub enviado : Pcb → Pcb
enviado pcb = record pcb { fui_a_entrada_salida = 0 }

-- `actualizarPCB`
unfoldable pub actualizar_pcb : Pcb → Mensaje → Option Pcb
actualizar_pcb pcb mensaje = do
  program_counter ← leer_sin_signo mensaje (codes "progCounter")
  quantum ← leer_sin_signo mensaje (codes "quantum")
  stack_pagina ← leer_sin_signo mensaje (codes "stackPagina")
  stack_offset ← leer_sin_signo mensaje (codes "stackOffset")
  stack_size ← leer_sin_signo mensaje (codes "stackSize")
  stack_level ← leer_sin_signo mensaje (codes "stackLevel")
  cantidad_rafagas ← leer_sin_signo mensaje (codes "cantidad_rafagas")
  descriptor ← leer_sin_signo mensaje (codes "descriptor")
  direccion ← leer_texto mensaje (codes "direccion")
  creacion ← leer_sin_signo mensaje (codes "creacion")
  escritura ← leer_sin_signo mensaje (codes "escritura")
  lectura ← leer_sin_signo mensaje (codes "lectura")
  offset_arch ← leer_sin_signo mensaje (codes "offsetArch")
  tam_a_escribir ← leer_sin_signo mensaje (codes "tamAEscribir")
  informacion ← leer_texto mensaje (codes "infoAEscribir")
  cont_etiquetas ← com_leer_int mensaje (codes "contEtiquetas")
  indice_etiquetas ← leer_lista (leer_etiqueta mensaje) 0 (vueltas cont_etiquetas)
  cont_stack ← com_leer_int mensaje (codes "contStack")
  stack ← leer_lista (leer_nivel formato_kernel mensaje) 0 (vueltas cont_stack)
  some (record pcb {
    program_counter = program_counter;
    quantum = quantum;
    stack_pagina = stack_pagina;
    stack_offset = stack_offset;
    stack_size = stack_size;
    stack_level = stack_level;
    cantidad_rafagas = cantidad_rafagas;
    descriptor = descriptor;
    direccion = direccion;
    creacion = creacion;
    escritura = escritura;
    lectura = lectura;
    offset_arch = offset_arch;
    tam_a_escribir = tam_a_escribir;
    informacion = informacion;
    indice_etiquetas = indice_etiquetas;
    stack = stack;
  })
