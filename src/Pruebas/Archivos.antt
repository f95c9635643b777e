-- ===== src/Pruebas/Archivos.antt =====
-- The files of a process by src/kernel/kernel.c, with two of them.
use tp_sisop_1c_2017_david.Prelude.{
  ℕ, ◌++◌, pos, true, ◌≡◌, refl, Option, none, some, ◌>>=◌, List, [], ◌∷◌, codes, listas_puras,
  arith,
}
use tp_sisop_1c_2017_david.Kernel.Planificacion.{Pcb, pcb_nulo}
use tp_sisop_1c_2017_david.Kernel.Contexto.{actualizar_pcb}
use tp_sisop_1c_2017_david.Cpu.Contexto.{PcbActivo, respuesta_al_kernel}
use tp_sisop_1c_2017_david.Contexto.Envio.{mensaje_con, en_cpu}
use tp_sisop_1c_2017_david.Contexto.Respuesta.{EsActivo}
use tp_sisop_1c_2017_david.Contexto.Vuelta.{en_cpu-EsActivo}
use tp_sisop_1c_2017_david.Pruebas.Contexto
use tp_sisop_1c_2017_david.Pruebas.Contexto.{niveles, proceso-EsPcb}
use tp_sisop_1c_2017_david.Kernel.Archivos.{
  Archivos, Disco, abrir_archivo, abrir_existente, cerrar_archivo,
}
use tp_sisop_1c_2017_david.Kernel.Archivos.Tablas.{abrir-cerrar_archivo}

abbrev proceso : Pcb
proceso = record (pcb_nulo (pos 1)) { direccion = codes "/a" }

-- One file, which another process has open.
abbrev archivos : Archivos ℕ
archivos = record {
  tabla = record { ident = 0; count_open = 1; file = codes "/b" } ∷ [];
  proximo = 1;
  disco = 0;
}

-- The process in a CPU that asks to close the descriptor 3.
abbrev activo : PcbActivo
activo = record (en_cpu 0 (codes "RR") (pos 2) Contexto.proceso niveles) { descriptor = 3 }

activo-EsActivo : EsActivo activo
activo-EsActivo =
    let a =
      en_cpu-EsActivo 0 (codes "RR") (pos 2) Contexto.proceso niveles (omega arith) proceso-EsPcb in
    let n = a.numeros in
    let r = n.1.1.1.1 in
    let u = r.1.1.1.1 in
    record {
      numeros = (
        n.0,
        (
          n.1.0,
          (
            n.1.1.0,
            (n.1.1.1.0, (r.0, (r.1.0, (r.1.1.0, (r.1.1.1.0, (u.0, (omega arith, u.1.1))))))),
          ),
        ),
      );
      textos = a.textos;
      largos = a.largos;
      etiquetas = a.etiquetas;
      validos = a.validos;
    }

-- The file "/a", which no process had open, leaves an entry without openings.
abrir-cerrar_archivo_example :
    let r =
      abrir_existente ⦃globales = listas_puras⦄ ⦃abiertos = listas_puras⦄ (7, 8) archivos proceso in
    (t : Archivos ℕ × Pcb) × (◌≡◌ {A = Option (Archivos ℕ × Pcb)}
      (actualizar_pcb r.1 (mensaje_con 107 (respuesta_al_kernel activo)) >>= λ q.
        cerrar_archivo ⦃globales = listas_puras⦄ ⦃abiertos = listas_puras⦄ r.0 q)
      (some t))
    × (t.0.tabla ≡ archivos.tabla ++ (record { ident = 1; count_open = 0; file = codes "/a" } ∷ []))
    × (t.1.tabla_archivos ≡ [])
abrir-cerrar_archivo_example =
    abrir-cerrar_archivo ⦃globales = listas_puras⦄ ⦃abiertos = listas_puras⦄ (7, 8) archivos proceso
      107 activo ((omega arith, omega arith, omega arith), tt) tt (refl, tt) refl activo-EsActivo
      refl refl

-- A file system on which every file exists.
abbrev disco : Disco ℕ
disco = record {
  existe = λ d f. (d, true);
  crear = λ d f. (d, true);
  borrar = λ d f. (d, true);
  escribir = λ d f info tam offset. d;
  leer = λ d f tam offset. (d, none);
}

abbrev abre : List ℕ → Archivos ℕ × Pcb → Archivos ℕ × Pcb
abre f r =
    abrir_archivo ⦃globales = listas_puras⦄ ⦃abiertos = listas_puras⦄ disco (0, 0) r.0
      (record r.1 { direccion = f })

-- The process opens "/b" and "/c" and closes the first one, whose descriptor is 3. The entry of "/c", the path
-- that it named last, is gone, and that of "/b" stays with no opening.
abbrev abiertas : Archivos ℕ × Pcb
abiertas = abre (codes "/c") (abre (codes "/b") (record archivos { tabla = [] }, proceso))

cierra_la_otra :
    (cerrar_archivo ⦃globales = listas_puras⦄ ⦃abiertos = listas_puras⦄ abiertas.0
        (record abiertas.1 { descriptor = 3 })
      >>= λ r. some r.0.tabla)
    ≡ some (record { ident = 1; count_open = 0; file = codes "/b" } ∷ [])
unfolding cerrar_archivo abrir_archivo
cierra_la_otra = refl
