-- ===== src/Sistema.antt =====
-- The kernel with the memory server of the program: what funcionHiloKernel of src/memoria/memoria.c answers to
-- the messages of src/kernel/kernel.c and src/kernel/heapmemo.c, by the operations on pages.
pub mod Heap
pub mod Lugar
pub mod Carga
use tp_sisop_1c_2017_david.Prelude.{
  ℕ, ℤ, pos, negsuc, Bool, true, false, Option, none, some, ◌>>=◌, List, [], Commons,
}
use tp_sisop_1c_2017_david.Memoria.Estado.{Memoria}
use tp_sisop_1c_2017_david.Memoria.Paginas.{reservar_pagina, guardar_pagina, consultar_pagina}
use tp_sisop_1c_2017_david.Memoria.Paginas.Guardar.{contenido}
use tp_sisop_1c_2017_david.Kernel.Carga.{Servidor}
use tp_sisop_1c_2017_david.Kernel.HeapProceso.{ServidorHeap}

-- The case `KM_GUARDAR_PAGINA`. A server is `none` after a fault, and answers nothing any more.
abbrev pub atender_guardar : Option Memoria → ℤ → ℕ → List ℕ → Option Memoria
atender_guardar none pid k pagina = none
atender_guardar (some s) pid k pagina = guardar_pagina s pid (pos k) pagina >>= λ r. some r.0

-- The bytes behind the address that `consultarPagina` returns: those of a block of a process; what lies outside
-- is not known.
abbrev pub bytes_leidos : Option (List ℕ) → List ℕ
bytes_leidos none = []
bytes_leidos (some b) = b

abbrev pub pagina_leida : Memoria → Option ℤ → List ℕ
pagina_leida s none = []
pagina_leida s (some (negsuc i)) = []
pagina_leida s (some (pos i)) = bytes_leidos (contenido s i)

-- The case `KM_CONSULTAR_PAGINA`
abbrev pub atender_consulta : Option Memoria → ℤ → ℕ → List ℕ
atender_consulta none pid k = []
atender_consulta (some s) pid k = pagina_leida s (consultar_pagina s pid (pos k))

abbrev pub responde : Option Memoria → Bool
responde none = false
responde (some s) = true

module _ ⦃commons : Commons ℤ⦄ where
  -- The case `KM_RESERVAR_PAGINA`
  abbrev pub atender_reserva : Option Memoria → ℤ → ℕ → Option Memoria × (Bool × (ℤ × ℕ))
  atender_reserva none pid k = (none, (false, (pos 0, 0)))
  atender_reserva (some s) pid k =
      let r = reservar_pagina s pid (pos k) in (some r.0, (true, (pos r.1, s.marco_size)))

  -- `funcionHiloKernel`, as the kernel sees it
  abbrev pub hilo_kernel : Servidor (Option Memoria)
  hilo_kernel = record { reservar = atender_reserva; guardar = atender_guardar }

  abbrev pub hilo_kernel_heap : ServidorHeap (Option Memoria)
  hilo_kernel_heap = record {
    servidor = hilo_kernel;
    consultar = atender_consulta;
    guardada = λ m pid k pagina. responde (atender_guardar m pid k pagina);
  }
