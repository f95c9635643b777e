-- ===== src/Kernel/Planificacion/Estructuras.antt =====
-- The data of src/kernel/structkernel.h that planning works on, and the searches by process.
use tp_sisop_1c_2017_david.Prelude.{
  ℕ, suc, ◌+◌, ◌-◌, ◌%◌, ◌^◌, ℤ, pos, minus_one, eqb_ℤ, Bool, if◌then◌else◌, Option, none, some,
  List, [], ◌∷◌,
}
use tp_sisop_1c_2017_david.Comunicacion.Campos.{Campo}
use tp_sisop_1c_2017_david.Contexto.{Etiqueta, Nivel}
use tp_sisop_1c_2017_david.Cpu.Posiciones.{Posicion}
use tp_sisop_1c_2017_david.Kernel.Minify.{MapInstruccion}

-- `t_tabla_archivo`, an open file of a process; `global` is the number of the entry that `globalFD` points to.
pub record Abierto : Type 0 where
  pub file_descriptor : ℕ
  pub permisos : List ℕ
  pub global : ℕ
  pub lectura : ℕ
  pub escritura : ℕ

-- `t_variables_stack`
pub record VariablesStack : Type 0 where
  pub id : List ℕ
  pub posicion : Posicion

-- `t_pcb`
pub record Pcb : Type 0 where
  pub pid : ℤ
  pub sock : ℤ
  pub exit_code : ℤ
  pub operacion_es : ℕ
  pub nombre_semaforo : List ℕ
  pub script : List ℕ
  pub paginas_pedidas : ℕ
  pub tam_pagina : ℕ
  pub stack_pagina : ℕ
  pub primer_pagina_heap : ℕ
  pub cant_paginas_heap : ℕ
  pub cant_inst_priv : ℕ
  pub cant_syscalls : ℕ
  pub fui_a_entrada_salida : ℕ
  pub tabla_archivos : List Abierto
  pub direccion : List ℕ
  pub creacion : ℕ
  pub descriptor : ℕ
  pub descriptor_next : ℕ
  pub informacion : List ℕ
  pub offset_arch : ℕ
  pub tam_a_escribir : ℕ
  pub escritura : ℕ
  pub lectura : ℕ
  pub program_counter : ℕ
  pub quantum : ℕ
  pub quantum_sleep : ℕ
  pub stack_offset : ℕ
  pub stack_size : ℕ
  pub stack_level : ℕ
  pub stack : List (Nivel VariablesStack)
  pub indice_etiquetas : List Etiqueta
  pub instrucciones : List MapInstruccion
  pub cantidad_rafagas : ℕ

-- `t_cpu`
pub record Cpu : Type 0 where
  pub sock : ℤ
  pub activo : ℤ
  pub libre : Bool

-- `t_var_comp`, a shared variable or a semaphore
pub record VarComp : Type 0 where
  pub nombre : List ℕ
  pub valor : ℤ
  pub pila_espera : List ℤ

-- A message that was sent: to which socket, its type and its fields.
pub record Envio : Type 0 where
  pub sock : ℤ
  pub tipo : ℕ
  pub campos : List (List ℕ × Campo)

-- The globals of the kernel with `t_listas`. `memoria` and `archivos` are the states of the memory server and
-- the file system; `enviados` are the messages sent, the last one first.
pub record Kernel (σ φ : Type 0) : Type 0 where
  pub grado_multiprogramacion : ℕ
  pub procesos_en_sistema : ℕ
  pub new : List ℤ
  pub ready : List ℤ
  pub exec : List ℤ
  pub blocked : List ℤ
  pub exit : List ℤ
  pub programas : List Pcb
  pub cpus : List Cpu
  pub variables_comp : List VarComp
  pub semaforos_comp : List VarComp
  pub memoria : σ
  pub archivos : φ
  pub enviados : List Envio

pub data Cola : Type 0 where
  nuevos listos ejecutando bloqueados terminados : Cola

-- The values that `exitCode` takes here
abbrev pub exit_code_correcto : ℤ
exit_code_correcto = pos 0

abbrev pub esperando_semaforo : ℤ
esperando_semaforo = pos 111

abbrev pub termino_espera : ℤ
termino_espera = pos 112

-- `PK_FINALIZO_PROGRAMA`
abbrev pub pk_finalizo_programa : ℕ
pk_finalizo_programa = 502

-- The level that the stack of a new process has.
abbrev nivel_inicial : Nivel VariablesStack
nivel_inicial = record {
  id = 0;
  argumento = [];
  variable = [];
  ret_pos = 0;
  ret_var = record { pagina = 0; offset = 0; size = 0 };
}

-- What `nuevoPrograma` writes in every PCB.
abbrev pub pcb_nulo : ℤ → Pcb
pcb_nulo pid = record {
  pid = pid;
  sock = minus_one;
  exit_code = exit_code_correcto;
  operacion_es = 0;
  nombre_semaforo = [];
  script = [];
  paginas_pedidas = 0;
  tam_pagina = 0;
  stack_pagina = 0;
  primer_pagina_heap = 0;
  cant_paginas_heap = 0;
  cant_inst_priv = 0;
  cant_syscalls = 0;
  fui_a_entrada_salida = 0;
  tabla_archivos = [];
  direccion = [];
  creacion = 0;
  descriptor = 0;
  descriptor_next = 3;
  informacion = 32 ∷ [];
  offset_arch = 0;
  tam_a_escribir = 0;
  escritura = 0;
  lectura = 0;
  program_counter = 0;
  quantum = 0;
  quantum_sleep = 0;
  stack_offset = 0;
  stack_size = 0;
  stack_level = 0;
  stack = nivel_inicial ∷ [];
  indice_etiquetas = [];
  instrucciones = [];
  cantidad_rafagas = 0;
}

-- The PCB that a pointer stands for, and a write through it.
unfoldable pub pcb_de : List Pcb → ℤ → Pcb
pcb_de [] pid = pcb_nulo pid
pcb_de (p ∷ ps) pid = let resto = pcb_de ps pid in if eqb_ℤ p.pid pid then p else resto

unfoldable pub con_pcb : (Pcb → Pcb) → ℤ → List Pcb → List Pcb
con_pcb f pid [] = []
con_pcb f pid (p ∷ ps) =
    let resto = con_pcb f pid ps in if eqb_ℤ p.pid pid then f p ∷ ps else p ∷ resto

-- The loops that look a process up in a list: the index of the first one.
abbrev pub siguiente : Option ℕ → Option ℕ
siguiente none = none
siguiente (some i) = some (suc i)

unfoldable pub indice : ℤ → List ℤ → Option ℕ
indice pid [] = none
indice pid (q ∷ qs) = let resto = siguiente (indice pid qs) in if eqb_ℤ q pid then some 0 else resto

abbrev pub restar_uno : ℕ → ℕ
restar_uno n = (n + 2 ^ 32 - 1) % 2 ^ 32

-- What the kernel asks of the processes that it talks to, and of its other modules.
pub record Entorno (σ φ : Type 0) : Type 0 where
  -- the answer to `KM_FIN_PROCESO`
  pub finalizar : σ → ℤ → σ
  -- `reservarMemoriaParaProceso`
  pub cargar : σ → Pcb → σ × Pcb
  -- `reservarMemoriaHeap`, false where it returns -1, and what it sends
  pub reservar_heap : σ → Pcb → ℤ → ℤ → (σ × Pcb) × (Bool × List Envio)
  -- `liberarMemoriaHeap`
  pub liberar_heap : σ → Pcb → ℤ → ℤ → σ × List Envio
  -- the cases of `atenderES` for files
  pub operar_archivo : φ → Pcb → (φ × Pcb) × List Envio
  -- `algoritmo` and `stackMaxSize` of the configuration
  pub algoritmo : List ℕ
  pub stack_max_size : ℤ
