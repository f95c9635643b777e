-- ===== src/Lib.antt =====
-- Verification of tp-sisop-1c-2017-david, a distributed operating system in C: a kernel that schedules
-- scripts, CPUs that run them, a memory server, a file system and consoles, which talk by messages.
--
-- What is modelled is the memory server, src/memoria/memoria.c and memoria.h, the planning of the
-- kernel with its heap pages and scripts, the messages, and parts of a CPU.
-- The memory server:
--   Memoria.Marco    the inverted page table: its entries and the loops that search and count in it
--   Memoria.Cache    the cache of pages: lookup, use counts, replacement, the limit per process
--   Memoria.Estado   the globals of memoria.h as a record, and inicializarEstructuras
--   Memoria.Paginas  the page operations that the kernel asks for: reservarPagina, guardarPagina,
--                    liberarPagina, consultarPagina, finalizarProceso, and calcularSizePID
--   Memoria.Datos    the data operations that a CPU asks for: leerDatoInt, leerDatoString,
--                    guardarDatoInt, guardarDatoString
-- The kernel:
--   Kernel.Heap      src/kernel/heapmemo.c, one heap page as its bytes: _getHeapBlock,
--                    _setHeapBlock, _crearPagina, _obtenerBloqueLibre, _reservarEspacioPagina, _compactar, _liberarEspacio
--   Kernel.Heap.Bloques, Kernel.Heap.Asignado, Kernel.Heap.Cadena
--                    the abstract list of blocks with first fit and melting, the blocks in use, and
--                    when a page's bytes hold such a list
--   Kernel.Heap.Maximo
--                    requests of _getTamanioMaximo bytes
--   Kernel.HeapProceso
--                    reservarMemoriaHeap and liberarMemoriaHeap of heapmemo.c, over the pages of a process
--   Kernel.Minify    src/kernel/minify.c: scriptToList with the tokens of strtok, scriptToBloques,
--                    getCadenaContatenada, substring
--   Kernel.Planificacion
--                    src/kernel/kernel.c: the process lists and the moves between them, the end of a
--                    program by finalizarPrograma and finalizarProgramaConError
--   Kernel.Semaforos the shared semaphores and variables of kernel.c, by atenderES and the main loop
--   Kernel.Estado    actualizarEstadoSistema with atenderES
--   Kernel.Eventos   the main loop: the messages of programs and CPUs, nuevoPrograma, nuevoCPU;
--                    Kernel.Eventos.Alcanza is the loop as a relation on states, which takes the connections,
--                    messages, hang-ups, updates and the two console commands that change the
--                    lists in any order, each one whole
--   Kernel.Carga     reservarMemoriaParaProceso, pedirPaginaParaProceso and guardarPaginaProceso of kernel.c
--   Kernel.Archivos  the cases of atenderES for files, with the tables of open files
-- The messages between the processes:
--   Comunicacion     com_nuevoMensaje and the functions of src/comunicacion/comunicacion.c that add and
--                    read fields; Comunicacion.Campos has the abstract message, a list of fields
--   Contexto         the labels, levels of the stack and instructions of a process as fields of a message, and
--                    the loops that read them; Contexto.Viaje, Contexto.Envio, Contexto.Ida, Contexto.Respuesta and
--                    Contexto.Vuelta have a process on its way to a CPU and back
--   Kernel.Contexto  enviarPCBAlCPU and actualizarPCB of src/kernel/kernel.c
--   Cpu.Contexto     t_pcbActivo with cargarPCB and respoderAlKernel of src/cpu/cpu.c
-- A CPU:
--   Cpu.Posiciones   positions and pointers of src/cpu/cpu.c: posicionConvertirAPuntero,
--                    punteroConvertirAPosicion, actualizarStackPointer
--   Cpu.Llamadas     villereada, irAFuncion, llamarConRetorno and finalizar of src/cpu/cpu.c, with
--                    pedirAMemoriaString; Cpu.Llamadas.Etiquetas, Cpu.Llamadas.Saltos and
--                    Cpu.Llamadas.Regreso have the proofs
--   Cpu.Pedidos      abrir, leer, escribir, cerrar, borrar, moverCursor and wait of src/cpu/cpu.c, with
--                    almacenarEnMemoriaUnValor
--   Cpu.Rafaga       ejecutarRafaga and the loop of main in src/cpu/cpu.c with the switch after it; the
--                    parser of ANSISOP is an argument, and the loop runs on fuel
--   Cpu.Variables    definirVariable and obtenerPosicionVariable of src/cpu/cpu.c
-- The kernel with the memory server of the program:
--   Sistema          what funcionHiloKernel of src/memoria/memoria.c answers to the kernel, by the page operations;
--                    Sistema.Heap releases heap memory through it, Sistema.Lugar says when it has room
--                    for pages, and Sistema.Carga loads a script into it
-- The children of these modules hold the proofs. Pruebas has tests and the theorems at concrete inputs.
-- Prelude holds what the modules share, with memcpy on arrays of bytes, int as four bytes, and the list
-- functions of so-commons as an interface with their documented laws.
--
-- An int is a ℤ; a position, size or count is a ℕ where the code never makes it negative, and `none` where
-- the code returns the position -1. A C function that can leave an allocation returns an Option, whose
-- `none` is that fault. What an uninitialised variable holds is an argument named basura. The bytes of the
-- model begin at inicioMemoriaProcesos; the page table before them is the list `tabla`. Sizes are taken to
-- stay below 2 ^ 31, so that the products of the code do not wrap. The loop of eliminarProcesoEnMemoria runs
-- on fuel, one more than the table has entries: each round but the last frees one.
-- The loops over a heap page run on one unit more than the page has bytes: each round but the last passes a header of five. A request for heap bytes is not negative.
--
-- In the kernel a pointer to a PCB is the number of its process, and what the pointer reads and writes is the
-- entry of `programas` with that number; nuevoPrograma gives each number out once, up to 2 ^ 31 - 1. A message
-- of a CPU is taken with the fields that its case reads already looked up; what actualizarPCB reads, it reads from
-- the message. What a round of planning asks of the memory server and the file system is the record Entorno. The memory server and the file system are other processes. Of its fields,
-- cargar is reservarMemoriaParaProceso and operar_archivo the file cases of atenderES, where these return;
-- reservar_heap and liberar_heap are reservarMemoriaHeap and liberarMemoriaHeap in the same way; they are
-- modelled by themselves, in Kernel.Carga, Kernel.Archivos and Kernel.HeapProceso. The search of
-- reservarMemoriaHeap for a page runs on fuel, which its caller gives: with no fuel left it is `none`.
-- The loop of reservarMemoriaParaProceso runs on fuel, more than the script has bytes: each
-- round sends at least one. A memory server of Sistema is `none` after
-- a fault, and answers nothing from then on. A path has at most 100 characters, and a text that is
-- copied into a string_new() is taken to fit. A NULL text is not modelled: a message
-- without the text that is read counts as a fault where the code would store a NULL in `informacion`, `direccion`
-- or another field, and an answer of the file system without a text leaves `informacion` as it was. The sizes of pages
-- are not 0, and the pages and offsets of a stack stay below 2 ^ 32. The global tamanioPagina of the kernel, which
-- the loading of a script sets, is the argument `tam` of Kernel.HeapProceso. The value of a semaphore is an integer that does not
-- overflow. The loops of actualizarEstadoSistema over blocked and new run on as many units of fuel as the list
-- has elements at the start: each round goes one index on and the list does not grow.
--
-- Not modelled: sockets, threads and mutexes, logging, the consoles and their dumps, the other primitives of the CPUs and the file system.
pub mod Prelude
pub mod Comunicacion
pub mod Contexto
pub mod Memoria
pub mod Kernel
pub mod Cpu
pub mod Sistema
pub mod Pruebas
