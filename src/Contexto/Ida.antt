-- ===== src/Contexto/Ida.antt =====
-- A process on its way to a CPU: enviarPCBAlCPU of src/kernel/kernel.c, and cargarPCB of src/cpu/cpu.c on its
-- message.
use tp_sisop_1c_2017_david.Prelude.{
  ℕ, ◌<◌, ◌≢◌, ◌≡◌, refl, sym, ap, ◌∙◌, subst, ◌>>=◌, some, List, [], ◌∷◌, ℤ, pos, palabra, length,
  codes, arith,
}
use tp_sisop_1c_2017_david.Comunicacion.{Mensaje, com_leer_int}
use tp_sisop_1c_2017_david.Comunicacion.Campos.{Campo, numero, texto, valor_de}
use tp_sisop_1c_2017_david.Comunicacion.Secuencias.{
  Incluye, agregar_campos-Incluye, sin_signo, leer_sin_signo, leer_lista, numerados,
}
use tp_sisop_1c_2017_david.Comunicacion.Seleccion.{
  All-mapear, All-numerados, leer_lista-numerados, Todas, numero_en, numero_en-uno,
}
use tp_sisop_1c_2017_david.Cpu.Posiciones.{Posicion}
use tp_sisop_1c_2017_david.Cpu.Variables.{Variable}
use tp_sisop_1c_2017_david.Contexto.{Nivel, campos_codigo, leer_codigo, leer_texto}
use tp_sisop_1c_2017_david.Contexto.Lectura.{
  EsPalabra, leer_codigo-Incluye, leer_sin_signo-Da, leer_texto-Da, leer_posicion-Da,
}
use tp_sisop_1c_2017_david.Contexto.Validos.{EsCodigo}
use tp_sisop_1c_2017_david.Contexto.Partes.{
  Llega, clase, campos_proceso, Llega-Incluye, Llega-tras_otra, Llega-delante, Llega-cola,
  leer_etiquetas-proceso, leer_cantidad-proceso, leer_niveles-proceso,
}
use tp_sisop_1c_2017_david.Kernel.Planificacion.{Pcb}
use tp_sisop_1c_2017_david.Kernel.Estado.{ck_enviar_contexto}
use tp_sisop_1c_2017_david.Kernel.Contexto.{
  campos_fijos_contexto, campos_contexto, campos_instruccion,
}
use tp_sisop_1c_2017_david.Cpu.Contexto.{formato_cpu, cargar_pcb}
use tp_sisop_1c_2017_david.Contexto.Viaje.{
  All-de_mapear, numerados-mapear, mapear, codigo_en_cpu, length-mapear, campos_codigos,
  campos_contexto-proceso, EsCampo-proceso,
}
use tp_sisop_1c_2017_david.Contexto.Envio.{
  EsPcb, mensaje_con, en_cpu, fijos-EsCampo, fijos-clase, propios, codigos-EsCampo,
}

module _ (algoritmo : List ℕ) (stack_max_size : ℤ) (pcb : Pcb) (niveles : List (Nivel Variable))
    (h : EsPcb algoritmo stack_max_size pcb niveles) where
  abbrev cola : List (List ℕ × Campo)
  cola = campos_codigos pcb.instrucciones

  abbrev todo : List (List ℕ × Campo)
  todo =
      campos_proceso formato_cpu (campos_fijos_contexto algoritmo stack_max_size pcb)
        pcb.indice_etiquetas niveles cola

  abbrev mensaje : Mensaje
  mensaje = mensaje_con ck_enviar_contexto (campos_contexto algoritmo stack_max_size pcb)

  mensaje-Incluye : Incluye mensaje todo
  mensaje-Incluye =
      let igual = campos_contexto-proceso algoritmo stack_max_size pcb niveles h.pila in
      subst (λ fs. Incluye (mensaje_con ck_enviar_contexto fs) todo) (sym igual)
        (agregar_campos-Incluye ck_enviar_contexto (codes "pid", numero pcb.pid) _
          (EsCampo-proceso formato_cpu (campos_fijos_contexto algoritmo stack_max_size pcb)
            pcb.indice_etiquetas niveles cola (fijos-EsCampo algoritmo stack_max_size pcb niveles h)
            h.etiquetas h.largos.1 h.validos
            (codigos-EsCampo algoritmo stack_max_size pcb niveles h)))

  cola-Incluye :
      (q : ℕ)
      → 3 < q
      → (bs : List (List ℕ × Campo)) → Llega q cola bs
      → Todas clase q bs
      → Incluye mensaje bs
  cola-Incluye q l bs g t =
      Llega-Incluye q mensaje todo bs t
        (λ clave c k e.
          Llega-cola formato_cpu (campos_fijos_contexto algoritmo stack_max_size pcb)
            pcb.indice_etiquetas niveles cola (propios algoritmo stack_max_size pcb niveles h)
            h.etiquetas h.validos q l
            (All-mapear (λ c. clase c.0 ≡ 0) (λ c. clase c.0 ≢ q)
              (λ c a b. absurd (omega (arith, a, b, l)))
              (campos_fijos_contexto algoritmo stack_max_size pcb)
              (fijos-clase algoritmo stack_max_size pcb niveles h))
            clave c k (g clave c k e))
        mensaje-Incluye

  leer_cantidad : com_leer_int mensaje (codes "cantInst") ≡ some (pos (length pcb.instrucciones))
  unfolding clase valor_de
  leer_cantidad =
      (cola-Incluye 4 (omega arith)
        ((codes "cantInst", numero (pos (length pcb.instrucciones))) ∷ [])
        (Llega-delante 4 ((codes "cantInst", numero (pos (length pcb.instrucciones))) ∷ [])
          (numerados campos_instruccion 0 pcb.instrucciones))
        (refl, tt) (codes "cantInst") (numero (pos (length pcb.instrucciones))) refl).0

  leer_codigos :
      leer_lista (leer_codigo mensaje) 0 (length pcb.instrucciones)
      ≡ some (mapear codigo_en_cpu pcb.instrucciones)
  unfolding clase numero_en
  leer_codigos =
      let cs = mapear codigo_en_cpu pcb.instrucciones in
      let igual : numerados campos_codigo 0 cs ≡ numerados campos_instruccion 0 pcb.instrucciones =
        numerados-mapear campos_codigo campos_instruccion codigo_en_cpu (λ i x. refl) 0
          pcb.instrucciones in
      let clases =
        All-numerados campos_instruccion (λ c. clase c.0 ≡ 5) (λ i. EsCodigo (codigo_en_cpu i))
          (λ i x e. (refl, (refl, (refl, tt)))) 0 pcb.instrucciones h.instrucciones in
      let contado : List (List ℕ × Campo) =
        (codes "cantInst", numero (pos (length pcb.instrucciones))) ∷ [] in
      let is = numerados campos_instruccion 0 pcb.instrucciones in
      let incluye =
        cola-Incluye 5 (omega arith) is
          (Llega-tras_otra 5 4 contado is is (λ e. absurd (omega (arith, e))) (refl, tt)
            (λ clave c k e. e))
          clases in
      ap (leer_lista (leer_codigo mensaje) 0) (sym (length-mapear codigo_en_cpu pcb.instrucciones))
      ∙ leer_lista-numerados campos_codigo numero_en EsCodigo
          (λ i x e. (numero_en-uno i, (numero_en-uno i, (numero_en-uno i, tt))))
          (leer_codigo mensaje) mensaje (λ i x e. leer_codigo-Incluye mensaje i x e) 0 cs
          (All-de_mapear EsCodigo codigo_en_cpu pcb.instrucciones h.instrucciones)
          (subst (Incluye mensaje) (sym igual) incluye)

  palabra_de :
      (clave : List ℕ) (n : ℕ)
      → EsPalabra n
      → valor_de clave todo ≡ some (sin_signo n)
      → leer_sin_signo mensaje clave ≡ some n
  palabra_de clave n e v =
      leer_sin_signo-Da mensaje clave n e (mensaje-Incluye clave (sin_signo n) v)

  texto_de :
      (clave t : List ℕ) → valor_de clave todo ≡ some (texto t) → leer_texto mensaje clave ≡ some t
  texto_de clave t v = leer_texto-Da mensaje clave t (mensaje-Incluye clave (texto t) v)

  entero_de :
      (clave : List ℕ) (v : ℤ)
      → valor_de clave todo ≡ some (numero v)
      → leer_sin_signo mensaje clave ≡ some (palabra v)
  unfolding leer_sin_signo
  entero_de clave v e = rw (leer_sin_signo, (mensaje-Incluye clave (numero v) e).0, ◌>>=◌) refl

  -- What `cargarPCB` makes of the message of `enviarPCBAlCPU` for a process whose numbers fit in 32 bits, whose lists have less than 2 ^ 31 elements, whose
  -- texts are not empty and have no '|', and whose variables have names of one character, is the process: every
  -- number, label, level of the stack, argument, variable and instruction, with no bursts counted before the first
  -- instruction.
  pub cargar-enviar_pcb :
      (estado : ℕ)
      → cargar_pcb estado mensaje ≡ some (en_cpu estado algoritmo stack_max_size pcb niveles)
  unfolding cargar_pcb valor_de
  cargar-enviar_pcb estado =
      let n = h.numeros in
      let posicion : Posicion = record {
        pagina = pcb.stack_pagina;
        offset = pcb.stack_offset;
        size = pcb.stack_size;
      } in
      let stack_pointer =
        leer_posicion-Da mensaje (codes "stackPagina") (codes "stackOffset") (codes "stackSize")
          posicion (n.1.1.1.0, n.1.1.1.1.0, n.1.1.1.1.1.0)
          (mensaje-Incluye (codes "stackPagina") (sin_signo pcb.stack_pagina) refl)
          (mensaje-Incluye (codes "stackOffset") (sin_signo pcb.stack_offset) refl)
          (mensaje-Incluye (codes "stackSize") (sin_signo pcb.stack_size) refl) in
      rw
        (
          cargar_pcb,
          ◌>>=◌,
          entero_de (codes "pid") pcb.pid refl,
          palabra_de (codes "progCounter") pcb.program_counter n.0 refl,
          palabra_de (codes "quantum") pcb.quantum n.1.0 refl,
          stack_pointer,
          palabra_de (codes "stackLevel") pcb.stack_level n.1.1.1.1.1.1.0 refl,
          palabra_de (codes "tamPagina") pcb.tam_pagina n.1.1.1.1.1.1.1.0 refl,
          palabra_de (codes "quantumSleep") pcb.quantum_sleep n.1.1.0 refl,
          palabra_de (codes "cantidad_rafagas") pcb.cantidad_rafagas n.1.1.1.1.1.1.1.1.0 refl,
          palabra_de (codes "volviEntradaSalida") pcb.fui_a_entrada_salida n.1.1.1.1.1.1.1.1.1.0
              refl,
          texto_de (codes "algoritmo") algoritmo refl,
          entero_de (codes "stackMaxSize") stack_max_size refl,
          palabra_de (codes "primerPaginaHeap") pcb.primer_pagina_heap n.1.1.1.1.1.1.1.1.1.1.0 refl,
          palabra_de (codes "descriptor") pcb.descriptor n.1.1.1.1.1.1.1.1.1.1.1.0 refl,
          texto_de (codes "infoLectura") pcb.informacion refl,
          (mensaje-Incluye (codes "contEtiquetas") (numero (pos (length pcb.indice_etiquetas)))
              refl).0,
          leer_etiquetas-proceso formato_cpu (campos_fijos_contexto algoritmo stack_max_size pcb)
              pcb.indice_etiquetas niveles cola (propios algoritmo stack_max_size pcb niveles h)
              h.etiquetas h.validos mensaje mensaje-Incluye,
          leer_cantidad-proceso formato_cpu (campos_fijos_contexto algoritmo stack_max_size pcb)
              pcb.indice_etiquetas niveles cola (propios algoritmo stack_max_size pcb niveles h)
              h.etiquetas h.validos mensaje mensaje-Incluye,
          leer_niveles-proceso formato_cpu (campos_fijos_contexto algoritmo stack_max_size pcb)
              pcb.indice_etiquetas niveles cola (propios algoritmo stack_max_size pcb niveles h)
              h.etiquetas h.validos mensaje mensaje-Incluye,
          leer_cantidad,
          leer_codigos,
        )
        refl
