-- ===== src/Contexto/Vuelta.antt =====
-- A process on its way back from a CPU: respoderAlKernel of src/cpu/cpu.c, and actualizarPCB of src/kernel/kernel.c
-- on its message; and the whole way.
use tp_sisop_1c_2017_david.Prelude.{
  ℕ, inl, inr, ◌≡◌, refl, sym, ap, ap₂, ◌∙◌, subst, ◌++◌, ◌>>=◌, some, List, [], ◌∷◌, ℤ, pos,
  palabra-lt, Bool-cases, ◌==◌, length, codes, arith, append-nil,
}
use tp_sisop_1c_2017_david.Comunicacion.{Mensaje}
use tp_sisop_1c_2017_david.Comunicacion.Campos.{Campo, numero, texto, valor_de}
use tp_sisop_1c_2017_david.Comunicacion.Secuencias.{
  Incluye, agregar_campos-Incluye, sin_signo, leer_sin_signo, numerados,
}
use tp_sisop_1c_2017_david.Cpu.Variables.{Variable}
use tp_sisop_1c_2017_david.Contexto.{Nivel, campos_etiqueta, campos_nivel, leer_texto}
use tp_sisop_1c_2017_david.Contexto.Lectura.{EsPalabra, leer_sin_signo-Da, leer_texto-Da}
use tp_sisop_1c_2017_david.Contexto.Validos.{EsLargo}
use tp_sisop_1c_2017_david.Contexto.Partes.{
  campos_proceso, leer_etiquetas-proceso, leer_cantidad-proceso, leer_niveles-proceso,
}
use tp_sisop_1c_2017_david.Kernel.Planificacion.{Pcb}
use tp_sisop_1c_2017_david.Kernel.Estado.{ck_enviar_contexto}
use tp_sisop_1c_2017_david.Kernel.Contexto.{
  formato_kernel, campos_contexto, actualizar_pcb, enviado,
}
use tp_sisop_1c_2017_david.Cpu.Contexto.{
  campos_fijos_respuesta, PcbActivo, cargar_pcb, rafagas_iniciales, iniciar, o_guion,
  respuesta_al_kernel,
}
use tp_sisop_1c_2017_david.Contexto.Viaje.{
  campos_stack, nivel_en_kernel, length-mapear, EsCampo-proceso,
}
use tp_sisop_1c_2017_david.Contexto.Envio.{EsPcb, mensaje_con, en_cpu}
use tp_sisop_1c_2017_david.Contexto.Respuesta.{
  EsActivo, tras_cpu, fijos-EsCampo, propios, validos, niveles,
}
use tp_sisop_1c_2017_david.Contexto.Ida.{cargar-enviar_pcb}

module _ (tipo : ℕ) (p : PcbActivo) (h : EsActivo p) where
  abbrev todo : List (List ℕ × Campo)
  todo =
      campos_proceso formato_kernel (campos_fijos_respuesta p) p.indice_etiquetas (niveles p h) []

  abbrev mensaje : Mensaje
  mensaje = mensaje_con tipo (respuesta_al_kernel p)

  respuesta-proceso : respuesta_al_kernel p ≡ todo
  respuesta-proceso =
      let armar : ℕ → List (List ℕ × Campo) → List (List ℕ × Campo) = λ largo st.
        campos_fijos_respuesta p
        ++ (numerados campos_etiqueta 0 p.indice_etiquetas
            ++ (((codes "contStack", numero (pos largo)) ∷ []) ++ st)) in
      ap₂ armar (sym (length-mapear nivel_en_kernel p.indice_stack)) (
        sym (campos_stack p.indice_stack)
        ∙ sym (append-nil (numerados (campos_nivel formato_kernel) 0 (niveles p h))))

  mensaje-Incluye : Incluye mensaje todo
  mensaje-Incluye =
      subst (λ fs. Incluye (mensaje_con tipo fs) todo) (sym respuesta-proceso)
        (agregar_campos-Incluye tipo (codes "pid", sin_signo p.pid) _
          (EsCampo-proceso formato_kernel (campos_fijos_respuesta p) p.indice_etiquetas
            (niveles p h) [] (fijos-EsCampo p h) h.etiquetas
            (subst EsLargo (sym (length-mapear nivel_en_kernel p.indice_stack)) h.largos.1)
            (validos p h) tt))

  palabra_de :
      (clave : List ℕ) (n : ℕ)
      → EsPalabra n
      → valor_de clave todo ≡ some (sin_signo n)
      → leer_sin_signo mensaje clave ≡ some n
  palabra_de clave n e v =
      leer_sin_signo-Da mensaje clave n e (mensaje-Incluye clave (sin_signo n) v)

  texto_de :
      (clave t : List ℕ) → valor_de clave todo ≡ some (texto t) → leer_texto mensaje clave ≡ some t
  texto_de clave t v = leer_texto-Da mensaje clave t (mensaje-Incluye clave (texto t) v)

  -- What `actualizarPCB` makes of the message of `respoderAlKernel`, whatever its type, for a process whose
  -- numbers fit in 32 bits, whose lists have less than 2 ^ 31 elements, and whose texts have no '|', those of
  -- labels not empty: the PCB has every number, label, level of the stack, argument and variable of the CPU, and
  -- "-" for each text that is empty.
  pub actualizar-responder : (pcb : Pcb) → actualizar_pcb pcb mensaje ≡ some (tras_cpu pcb p)
  unfolding actualizar_pcb valor_de
  actualizar-responder pcb =
      let n = h.numeros in
      rw
        (
          actualizar_pcb,
          ◌>>=◌,
          palabra_de (codes "progCounter") p.program_counter n.1.0 refl,
          palabra_de (codes "quantum") p.quantum n.1.1.0 refl,
          palabra_de (codes "stackPagina") p.stack_pointer.pagina n.1.1.1.0 refl,
          palabra_de (codes "stackOffset") p.stack_pointer.offset n.1.1.1.1.0 refl,
          palabra_de (codes "stackSize") p.stack_pointer.size n.1.1.1.1.1.0 refl,
          palabra_de (codes "stackLevel") p.stack_level n.1.1.1.1.1.1.0 refl,
          palabra_de (codes "cantidad_rafagas") p.cantidad_rafagas n.1.1.1.1.1.1.1.1.0 refl,
          palabra_de (codes "descriptor") p.descriptor n.1.1.1.1.1.1.1.1.1.0 refl,
          texto_de (codes "direccion") (o_guion p.direccion) refl,
          palabra_de (codes "creacion") p.creacion n.1.1.1.1.1.1.1.1.1.1.0 refl,
          palabra_de (codes "escritura") p.escritura n.1.1.1.1.1.1.1.1.1.1.1.0 refl,
          palabra_de (codes "lectura") p.lectura n.1.1.1.1.1.1.1.1.1.1.1.1.0 refl,
          palabra_de (codes "offsetArch") p.offset_arch n.1.1.1.1.1.1.1.1.1.1.1.1.1.0 refl,
          palabra_de (codes "tamAEscribir") p.tam_a_escribir n.1.1.1.1.1.1.1.1.1.1.1.1.1.1.0 refl,
          texto_de (codes "infoAEscribir") (o_guion p.informacion_escribir) refl,
          (mensaje-Incluye (codes "contEtiquetas") (numero (pos (length p.indice_etiquetas)))
              refl).0,
          leer_etiquetas-proceso formato_kernel (campos_fijos_respuesta p) p.indice_etiquetas
              (niveles p h) [] (propios p h) h.etiquetas (validos p h) mensaje mensaje-Incluye,
          leer_cantidad-proceso formato_kernel (campos_fijos_respuesta p) p.indice_etiquetas
              (niveles p h) [] (propios p h) h.etiquetas (validos p h) mensaje mensaje-Incluye,
          leer_niveles-proceso formato_kernel (campos_fijos_respuesta p) p.indice_etiquetas
              (niveles p h) [] (propios p h) h.etiquetas (validos p h) mensaje mensaje-Incluye,
        )
        refl

-- The process that a CPU was sent survives the way back.
pub en_cpu-EsActivo :
    (estado : ℕ) (algoritmo : List ℕ) (stack_max_size : ℤ) (pcb : Pcb)
    (niveles : List (Nivel Variable))
    → EsPalabra estado
    → EsPcb algoritmo stack_max_size pcb niveles
    → EsActivo (en_cpu estado algoritmo stack_max_size pcb niveles)
en_cpu-EsActivo estado algoritmo stack_max_size pcb niveles e h =
    let n = h.numeros in
    let cero : EsPalabra 0 = omega arith in
    let rafagas : EsPalabra (rafagas_iniciales pcb.program_counter pcb.cantidad_rafagas) =
      elim (Bool-cases (pcb.program_counter == 0)) [
        | inl z ↦ rw (z) cero
        | inr z ↦ rw (z) n.1.1.1.1.1.1.1.1.0
      ] in
    record {
      numeros = (
        palabra-lt pcb.pid,
        (
          n.0,
          (
            n.1.0,
            (
              n.1.1.1.0,
              (
                n.1.1.1.1.0,
                (
                  n.1.1.1.1.1.0,
                  (
                    n.1.1.1.1.1.1.0,
                    (
                      e,
                      (
                        rafagas,
                        (n.1.1.1.1.1.1.1.1.1.1.1.0, (cero, (cero, (cero, (cero, (cero, tt)))))),
                      ),
                    ),
                  ),
                ),
              ),
            ),
          ),
        ),
      );
      textos = (tt, tt, tt);
      largos = (h.largos.0, h.largos.1);
      etiquetas = h.etiquetas;
      validos = h.validos;
    }

iniciar-EsActivo : (p : PcbActivo) → EsActivo p → EsActivo (iniciar p)
iniciar-EsActivo p h =
    let n = h.numeros in
    let cero : EsPalabra 0 = omega arith in
    let estado : EsPalabra 1200 = omega arith in
    let r = n.1.1.1.1 in
    record {
      numeros = (
        n.0,
        (n.1.0, (n.1.1.0, (n.1.1.1.0, (r.0, (r.1.0, (r.1.1.0, (estado, (cero, r.1.1.1.1.1)))))))),
      );
      textos = h.textos;
      largos = h.largos;
      etiquetas = h.etiquetas;
      validos = h.validos;
    }

-- A process that is sent to a CPU, which loads it, starts it as main does and answers with it before it runs an
-- instruction: for numbers that fit in 32 bits, lists of less than 2 ^ 31 elements, texts that are not empty and have
-- no '|', and names of one character, `actualizarPCB` on the answer to the message of `enviarPCBAlCPU` finds every
-- number, label and level of the stack unchanged. Only what belongs to a request is reset, and the count of the
-- bursts is 0.
pub ida-vuelta :
    (estado tipo : ℕ) (algoritmo : List ℕ) (stack_max_size : ℤ) (pcb : Pcb)
    (niveles : List (Nivel Variable))
    → EsPcb algoritmo stack_max_size pcb niveles
    → (cargar_pcb estado
          (mensaje_con ck_enviar_contexto (campos_contexto algoritmo stack_max_size pcb))
        >>= λ p. actualizar_pcb (enviado pcb) (mensaje_con tipo (respuesta_al_kernel (iniciar p))))
      ≡ some (record pcb {
        fui_a_entrada_salida = 0;
        cantidad_rafagas = 0;
        direccion = codes "-";
        creacion = 0;
        escritura = 0;
        lectura = 0;
        offset_arch = 0;
        tam_a_escribir = 0;
        informacion = codes "-";
      })
ida-vuelta estado tipo algoritmo stack_max_size pcb niveles h =
    let p = en_cpu 0 algoritmo stack_max_size pcb niveles in
    let activo =
      iniciar-EsActivo p (en_cpu-EsActivo 0 algoritmo stack_max_size pcb niveles (omega arith) h) in
    ap
      (λ o. o >>= λ q.
        actualizar_pcb (enviado pcb) (mensaje_con tipo (respuesta_al_kernel (iniciar q))))
      (cargar-enviar_pcb algoritmo stack_max_size pcb niveles h estado)
    ∙ actualizar-responder tipo (iniciar p) activo (enviado pcb)
    ∙ ap (λ st. some (record (tras_cpu (enviado pcb) (iniciar p)) { stack = st })) (sym h.pila)
