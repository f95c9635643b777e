-- ===== src/Kernel/Archivos.antt =====
-- The files of the processes, by the cases of atenderES in src/kernel/kernel.c. A pointer into the global table
-- is the number that its entry got; an outer `none` is the use of an entry that was freed.
mod Estructuras
pub mod Entradas
pub mod Tablas
unfoldable pub use Estructuras.*
use tp_sisop_1c_2017_david.Prelude.{
  ℕ, zero, suc, ◌+◌, ◌%◌, ◌^◌, ℤ, pos, negsuc, Bool, true, false, ◌==◌, ◌&&◌, if◌then◌else◌, Option,
  none, some, ◌>>=◌, List, [], ◌∷◌, Commons, codes,
}
use tp_sisop_1c_2017_david.Comunicacion.{iguales}
use tp_sisop_1c_2017_david.Comunicacion.Campos.{Campo, texto}
use tp_sisop_1c_2017_david.Kernel.Planificacion.{
  Abierto, Pcb, Envio, restar_uno, exit_code_correcto,
}

module _ ⦃globales : Commons Global⦄ where
  -- One opening less of the entry; with none left, the entry found by the path of the process is freed.
  abbrev pub cerrar_global : ℕ → Pcb → Option Global → List Global → Option (List Global)
  cerrar_global n p none tabla = none
  cerrar_global n p (some g) tabla =
      let tabla' = con_global cerrar_uno n tabla in
      some (
        if (cerrar_uno g).count_open == 0
        then globales.list_remove_by_condition tabla' (es_arch_buscado_global p)
        else tabla')

module _ ⦃globales : Commons Global⦄ ⦃abiertos : Commons Abierto⦄ {ψ : Type 0} where
  -- The entry of the global table for a file that is opened, for what the search found.
  abbrev pub entrada_global : Pcb → Option Global → Archivos ψ → Archivos ψ × ℕ
  entrada_global p none a = (
    record a {
      tabla =
          globales.list_add a.tabla
            (record { ident = a.proximo; count_open = 1; file = p.direccion });
      proximo = suc a.proximo;
    },
    a.proximo,
  )
  entrada_global p (some g) a = (record a { tabla = con_global abrir_uno g.ident a.tabla }, g.ident)

  -- The process gets the file in its table. `basura` is what `malloc` left in the two fields that nothing sets.
  abbrev pub registrar : ℕ × ℕ → Pcb → Archivos ψ × ℕ → Archivos ψ × Pcb
  registrar basura p (a, n) = (
    a,
    record p {
      tabla_archivos = abiertos.list_add p.tabla_archivos (record {
        file_descriptor = p.descriptor_next;
        permisos = [];
        global = n;
        lectura = basura.0;
        escritura = basura.1;
      });
      descriptor = p.descriptor_next;
      descriptor_next = (p.descriptor_next + 1) % 2 ^ 32;
      lectura = 0;
      escritura = 0;
    },
  )

  unfoldable pub abrir_existente : ℕ × ℕ → Archivos ψ → Pcb → Archivos ψ × Pcb
  unfolding con_global
  abrir_existente basura a p =
      registrar basura p
        (entrada_global p (globales.list_find a.tabla (es_arch_buscado_global p)) a)

  -- The case `OPERACION_CERRAR_ARCHIVO`, for what the search in the table of the process found
  abbrev pub cerrar_abierto : Archivos ψ → Pcb → Option Abierto → Option (Archivos ψ × Pcb)
  cerrar_abierto a p none = some (a, con_codigo sin_definicion p)
  cerrar_abierto a p (some x) =
      cerrar_global x.global p (global_de x.global a.tabla) a.tabla >>= λ tabla. some (
        record a { tabla = tabla },
        record p {
          tabla_archivos = abiertos.list_remove_by_condition p.tabla_archivos (es_arch_buscado p);
        },
      )

  unfoldable pub cerrar_archivo : Archivos ψ → Pcb → Option (Archivos ψ × Pcb)
  unfolding global_de con_global
  cerrar_archivo a p = cerrar_abierto a p (abiertos.list_find p.tabla_archivos (es_arch_buscado p))

module _ ⦃globales : Commons Global⦄ ⦃abiertos : Commons Abierto⦄ {ψ : Type 0} (fs : Disco ψ) where
  -- The case `OPERACION_ABRIR_ARCHIVO`
  unfoldable pub abrir_archivo : ℕ × ℕ → Archivos ψ → Pcb → Archivos ψ × Pcb
  unfolding abrir_existente
  abrir_archivo basura a p =
      let e = fs.existe a.disco p.direccion in
      let a' = record a { disco = e.0 } in
      elim e.1 [
        | true ↦ abrir_existente basura a' p
        | false ↦ elim (p.creacion == 0) [
          | true ↦ (a', con_codigo archivo_inexistente p)
          | false ↦
              abrir_existente basura (record a' { disco = (fs.crear a'.disco p.direccion).0 }) p
        ]
      ]

  -- The case `OPERACION_BORRAR_ARCHIVO`, for the entry of the global table
  abbrev pub borrar_global : Global → Archivos ψ → Pcb → Archivos ψ × Pcb
  borrar_global g a p =
      let e = fs.existe a.disco g.file in
      let a' = record a { disco = e.0 } in
      elim e.1 [
        | false ↦ (a', con_codigo sin_definicion p)
        | true ↦ elim (g.count_open == 1) [
          | false ↦ (a', p)
          | true ↦
              let b = fs.borrar a'.disco g.file in
              let a'' = record a' { disco = b.0 } in
              elim b.1 [
                | false ↦ (a'', p)
                | true ↦ (
                  record a'' {
                    tabla = globales.list_remove_by_condition a''.tabla (es_arch_buscado_global p);
                  },
                  p,
                )
              ]
        ]
      ]

  unfoldable pub borrar_archivo : Archivos ψ → Pcb → Option (Archivos ψ × Pcb)
  unfolding global_de
  borrar_archivo a p = elim (abiertos.list_find p.tabla_archivos (es_arch_buscado p)) [
    | none ↦ some (a, con_codigo sin_definicion p)
    | some x ↦ global_de x.global a.tabla >>= λ g. some (borrar_global g a p)
  ]

  -- The case `OPERACION_ESCRIBIR_ARCHIVO`; a write to the descriptor 1 goes to the console.
  unfoldable pub escribir_archivo : Archivos ψ → Pcb → Option ((Archivos ψ × Pcb) × List Envio)
  unfolding global_de
  escribir_archivo a p = elim (p.descriptor == 1) [
    | true ↦ some (
      (a, con_codigo exit_code_correcto p),
      record {
        sock = p.sock;
        tipo = pk_print_consola;
        campos = (codes "texto", texto p.informacion) ∷ [];
      }
          ∷ [],
    )
    | false ↦ elim (abiertos.list_find p.tabla_archivos (es_arch_buscado p)) [
      | none ↦ some ((a, con_codigo escribir_sin_permiso p), [])
      | some x ↦ elim (x.escritura == 0) [
        | true ↦ some ((a, con_codigo escribir_sin_permiso p), [])
        | false ↦ global_de x.global a.tabla >>= λ g. some (
          (
            record a {
              disco = fs.escribir a.disco g.file p.informacion p.tam_a_escribir p.offset_arch;
            },
            p,
          ),
          [],
        )
      ]
    ]
  ]

  -- The case `OPERACION_LEER_ARCHIVO`
  abbrev pub leido : Pcb → Option (List ℕ) → Pcb
  leido p none = p
  leido p (some lectura) = record p { informacion = lectura }

  unfoldable pub leer_archivo : Archivos ψ → Pcb → Option (Archivos ψ × Pcb)
  unfolding global_de
  leer_archivo a p = elim (abiertos.list_find p.tabla_archivos (es_arch_buscado p)) [
    | none ↦ some (a, con_codigo leer_sin_permiso p)
    | some x ↦ elim (x.lectura == 0) [
      | true ↦ some (a, con_codigo leer_sin_permiso p)
      | false ↦ global_de x.global a.tabla >>= λ g.
          let r = fs.leer a.disco g.file p.tam_a_escribir p.offset_arch in
          some (record a { disco = r.0 }, leido p r.1)
    ]
  ]

  sin_envios : Option (Archivos ψ × Pcb) → Option ((Archivos ψ × Pcb) × List Envio)
  sin_envios o = o >>= λ r. some (r, [])

  -- The cases of `atenderES` for files
  pub operar_archivo : ℕ × ℕ → Archivos ψ → Pcb → Option ((Archivos ψ × Pcb) × List Envio)
  unfolding abrir_archivo cerrar_archivo borrar_archivo escribir_archivo leer_archivo sin_envios
  operar_archivo basura a p =
      if p.operacion_es == 103
      then some (abrir_archivo basura a p, [])
      else if p.operacion_es == 105
      then sin_envios (leer_archivo a p)
      else if p.operacion_es == 106
      then escribir_archivo a p
      else if p.operacion_es == 107
      then sin_envios (cerrar_archivo a p)
      else if p.operacion_es == 108
      then sin_envios (borrar_archivo a p)
      else some ((a, p), [])
