-- ===== src/Cpu/Contexto.antt =====
-- The process that a CPU runs, `t_pcbActivo`, on its way from the kernel and back: cargarPCB and
-- respoderAlKernel of src/cpu/cpu.c. A message that is sent is its fields, in order.
use tp_sisop_1c_2017_david.Prelude.{
  ℕ, ◌++◌, ◌>>=◌, ◌==◌, if◌then◌else◌, Option, some, List, [], ◌∷◌, pos, length, get_or, codes,
}
use tp_sisop_1c_2017_david.Comunicacion.{Mensaje, com_leer_int}
use tp_sisop_1c_2017_david.Comunicacion.Campos.{Campo, numero, texto}
use tp_sisop_1c_2017_david.Comunicacion.Secuencias.{
  sin_signo, leer_sin_signo, leer_lista, numerados, vueltas,
}
use tp_sisop_1c_2017_david.Contexto.{
  Etiqueta, Nivel, Codigo, Formato, campos_etiqueta, campos_nivel, leer_texto, leer_posicion,
  leer_etiqueta, leer_nivel, leer_codigo,
}
use tp_sisop_1c_2017_david.Cpu.Posiciones.{Posicion}
use tp_sisop_1c_2017_david.Cpu.Variables.{Variable}

-- `t_pcbActivo`
pub record PcbActivo : Type 0 where
  pub pid : ℕ
  pub program_counter : ℕ
  pub quantum : ℕ
  pub estado_en_cpu : ℕ
  pub stack_pointer : Posicion
  pub stack_level : ℕ
  pub indice_codigo : List Codigo
  pub indice_etiquetas : List Etiqueta
  pub indice_stack : List (Nivel Variable)
  pub tam_pagina : ℕ
  pub quantum_retardo : ℕ
  pub direccion : List ℕ
  pub lectura : ℕ
  pub escritura : ℕ
  pub creacion : ℕ
  pub descriptor : ℕ
  pub offset_arch : ℕ
  pub informacion_escribir : List ℕ
  pub informacion_leer : List ℕ
  pub tam_a_escribir : ℕ
  pub cantidad_rafagas : ℕ
  pub volvio_entrada_salida : ℕ
  pub algoritmo : List ℕ
  pub stack_max_size : ℕ
  pub nombre_semaforo : List ℕ
  pub primer_pagina_heap : ℕ

-- A name of one character, which is not the 0; of a text it is the first one.
abbrev pub formato_cpu : Formato Variable
formato_cpu = record {
  nombre = λ v. v.id ∷ [];
  posicion = λ v. v.posicion;
  construir = λ id posicion. record { id = get_or id 0 0; posicion = posicion };
}

abbrev pub rafagas_iniciales : ℕ → ℕ → ℕ
rafagas_iniciales program_counter rafagas = if program_counter == 0 then 0 else rafagas

-- `cargarPCB`, which leaves `estadoEnCPU` to its caller.
unfoldable pub cargar_pcb : ℕ → Mensaje → Option PcbActivo
cargar_pcb estado_en_cpu mensaje = do
  pid ← leer_sin_signo mensaje (codes "pid")
  program_counter ← leer_sin_signo mensaje (codes "progCounter")
  quantum ← leer_sin_signo mensaje (codes "quantum")
  stack_pointer ←
      leer_posicion mensaje (codes "stackPagina") (codes "stackOffset") (codes "stackSize")
  stack_level ← leer_sin_signo mensaje (codes "stackLevel")
  tam_pagina ← leer_sin_signo mensaje (codes "tamPagina")
  quantum_retardo ← leer_sin_signo mensaje (codes "quantumSleep")
  cantidad_rafagas ← leer_sin_signo mensaje (codes "cantidad_rafagas")
  volvio_entrada_salida ← leer_sin_signo mensaje (codes "volviEntradaSalida")
  algoritmo ← leer_texto mensaje (codes "algoritmo")
  stack_max_size ← leer_sin_signo mensaje (codes "stackMaxSize")
  primer_pagina_heap ← leer_sin_signo mensaje (codes "primerPaginaHeap")
  descriptor ← leer_sin_signo mensaje (codes "descriptor")
  informacion_leer ← leer_texto mensaje (codes "infoLectura")
  cont_etiquetas ← com_leer_int mensaje (codes "contEtiquetas")
  indice_etiquetas ← leer_lista (leer_etiqueta mensaje) 0 (vueltas cont_etiquetas)
  cont_stack ← com_leer_int mensaje (codes "contStack")
  indice_stack ← leer_lista (leer_nivel formato_cpu mensaje) 0 (vueltas cont_stack)
  cant_inst ← com_leer_int mensaje (codes "cantInst")
  indice_codigo ← leer_lista (leer_codigo mensaje) 0 (vueltas cant_inst)
  some (record {
    pid = pid;
    program_counter = program_counter;
    quantum = quantum;
    estado_en_cpu = estado_en_cpu;
    stack_pointer = stack_pointer;
    stack_level = stack_level;
    indice_codigo = indice_codigo;
    indice_etiquetas = indice_etiquetas;
    indice_stack = indice_stack;
    tam_pagina = tam_pagina;
    quantum_retardo = quantum_retardo;
    direccion = [];
    lectura = 0;
    escritura = 0;
    creacion = 0;
    descriptor = descriptor;
    offset_arch = 0;
    informacion_escribir = [];
    informacion_leer = informacion_leer;
    tam_a_escribir = 0;
    cantidad_rafagas = rafagas_iniciales program_counter cantidad_rafagas;
    volvio_entrada_salida = volvio_entrada_salida;
    algoritmo = algoritmo;
    stack_max_size = stack_max_size;
    nombre_semaforo = [];
    primer_pagina_heap = primer_pagina_heap;
  })

-- What `main` sets in the process that it loaded: no bursts, and EJECUTANDO. The comparison of two pointers
-- there never holds.
abbrev pub iniciar : PcbActivo → PcbActivo
iniciar p = record p { cantidad_rafagas = 0; estado_en_cpu = 1200 }

-- A text, or "-" in place of an empty one.
abbrev pub o_guion : List ℕ → List ℕ
o_guion [] = codes "-"
o_guion (c ∷ cs) = c ∷ cs

-- The fields of `respoderAlKernel` up to the labels.
abbrev pub campos_fijos_respuesta : PcbActivo → List (List ℕ × Campo)
campos_fijos_respuesta p =
    (codes "pid", sin_signo p.pid)
    ∷ (codes "progCounter", sin_signo p.program_counter)
    ∷ (codes "quantum", sin_signo p.quantum)
    ∷ (codes "stackPagina", sin_signo p.stack_pointer.pagina)
    ∷ (codes "stackOffset", sin_signo p.stack_pointer.offset)
    ∷ (codes "stackSize", sin_signo p.stack_pointer.size)
    ∷ (codes "stackLevel", sin_signo p.stack_level)
    ∷ (codes "continua_activo", sin_signo p.estado_en_cpu)
    ∷ (codes "cantidad_rafagas", sin_signo p.cantidad_rafagas)
    ∷ (codes "descriptor", sin_signo p.descriptor)
    ∷ (codes "direccion", texto (o_guion p.direccion))
    ∷ (codes "creacion", sin_signo p.creacion)
    ∷ (codes "escritura", sin_signo p.escritura)
    ∷ (codes "lectura", sin_signo p.lectura)
    ∷ (codes "offsetArch", sin_signo p.offset_arch)
    ∷ (codes "tamAEscribir", sin_signo p.tam_a_escribir)
    ∷ (codes "infoAEscribir", texto (o_guion p.informacion_escribir))
    ∷ (codes "contEtiquetas", numero (pos (length p.indice_etiquetas)))
    ∷ (codes "nombre_semaforo", texto (o_guion p.nombre_semaforo))
    ∷ []

-- The message of `respoderAlKernel`, whose type is its argument.
abbrev pub respuesta_al_kernel : PcbActivo → List (List ℕ × Campo)
respuesta_al_kernel p =
    campos_fijos_respuesta p
    ++ (numerados campos_etiqueta 0 p.indice_etiquetas
        ++ (((codes "contStack", numero (pos (length p.indice_stack))) ∷ [])
            ++ numerados (campos_nivel formato_cpu) 0 p.indice_stack))
