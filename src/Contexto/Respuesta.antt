-- ===== src/Contexto/Respuesta.antt =====
-- A process that survives the way back from a CPU, respoderAlKernel of src/cpu/cpu.c, and the fields of its
-- message.
use tp_sisop_1c_2017_david.Prelude.{
  ℕ, ◌⊎◌, inl, inr, ◌≡◌, refl, sym, subst, List, [], ◌∷◌, pos, length, codes, All, arith,
}
use tp_sisop_1c_2017_david.Comunicacion.Campos.{SinSeparador, numero, texto, EsCampo}
use tp_sisop_1c_2017_david.Comunicacion.Secuencias.{sin_signo, entero-EsInt32}
use tp_sisop_1c_2017_david.Comunicacion.Seleccion.{All-mapear}
use tp_sisop_1c_2017_david.Cpu.Variables.{Variable}
use tp_sisop_1c_2017_david.Contexto.{Nivel}
use tp_sisop_1c_2017_david.Contexto.Lectura.{EsPalabra, EsTexto, EsVariable}
use tp_sisop_1c_2017_david.Contexto.Validos.{EsEtiqueta, EsLargo, EsNivelValido, campo_fijo, limpio}
use tp_sisop_1c_2017_david.Contexto.Partes.{clase}
use tp_sisop_1c_2017_david.Kernel.Planificacion.{Pcb, VariablesStack}
use tp_sisop_1c_2017_david.Kernel.Contexto.{formato_kernel}
use tp_sisop_1c_2017_david.Cpu.Contexto.{formato_cpu, campos_fijos_respuesta, PcbActivo, o_guion}
use tp_sisop_1c_2017_david.Contexto.Viaje.{
  variable_en_kernel, All-de_mapear, mapear, nivel_en_kernel, length-mapear,
}

-- A process that survives the way from a CPU.
pub record EsActivo (p : PcbActivo) : Type 0 where
  pub numeros : All EsPalabra (
      p.pid ∷ p.program_counter ∷ p.quantum ∷ p.stack_pointer.pagina ∷ p.stack_pointer.offset
      ∷ p.stack_pointer.size ∷ p.stack_level ∷ p.estado_en_cpu ∷ p.cantidad_rafagas ∷ p.descriptor
      ∷ p.creacion ∷ p.escritura ∷ p.lectura ∷ p.offset_arch ∷ p.tam_a_escribir ∷ [])
  pub textos :
      SinSeparador p.direccion
      × SinSeparador p.informacion_escribir
      × SinSeparador p.nombre_semaforo
  pub largos : EsLargo (length p.indice_etiquetas) × EsLargo (length p.indice_stack)
  pub etiquetas : All EsEtiqueta p.indice_etiquetas
  pub validos : All (EsNivelValido formato_cpu) p.indice_stack

o_guion-EsTexto : (t : List ℕ) → SinSeparador t → EsTexto (o_guion t)
o_guion-EsTexto [] s = (omega arith, (refl, tt))
o_guion-EsTexto (c ∷ cs) s = (omega arith, s)

nivel-valido :
    (n : Nivel Variable)
    → EsNivelValido formato_cpu n
    → EsNivelValido formato_kernel (nivel_en_kernel n)
nivel-valido n ((a, b, c, d, e), f, g) = (
  (
    a,
    b,
    c,
    d,
    All-de_mapear (EsVariable formato_kernel) variable_en_kernel n.variable (
        All-mapear (EsVariable formato_cpu) (λ v. EsVariable formato_kernel (variable_en_kernel v))
          (λ v h. (h.0, refl, h.2)) n.variable e),
  ),
  f,
  subst EsLargo (sym (length-mapear variable_en_kernel n.variable)) g,
)

-- The PCB of the kernel with what a CPU tells of the process.
abbrev pub tras_cpu : Pcb → PcbActivo → Pcb
tras_cpu pcb p = record pcb {
  program_counter = p.program_counter;
  quantum = p.quantum;
  stack_pagina = p.stack_pointer.pagina;
  stack_offset = p.stack_pointer.offset;
  stack_size = p.stack_pointer.size;
  stack_level = p.stack_level;
  cantidad_rafagas = p.cantidad_rafagas;
  descriptor = p.descriptor;
  direccion = o_guion p.direccion;
  creacion = p.creacion;
  escritura = p.escritura;
  lectura = p.lectura;
  offset_arch = p.offset_arch;
  tam_a_escribir = p.tam_a_escribir;
  informacion = o_guion p.informacion_escribir;
  indice_etiquetas = p.indice_etiquetas;
  stack = mapear nivel_en_kernel p.indice_stack;
}

module _ (p : PcbActivo) (h : EsActivo p) where
  pub fijos-EsCampo : All EsCampo (campos_fijos_respuesta p)
  unfolding limpio
  fijos-EsCampo =
      let n = h.numeros in
      (
        campo_fijo (codes "pid") (sin_signo p.pid) refl (entero-EsInt32 p.pid n.0),
        (
          campo_fijo (codes "progCounter") (sin_signo p.program_counter) refl
              (entero-EsInt32 p.program_counter n.1.0),
          (
            campo_fijo (codes "quantum") (sin_signo p.quantum) refl
                (entero-EsInt32 p.quantum n.1.1.0),
            (
              campo_fijo (codes "stackPagina") (sin_signo p.stack_pointer.pagina) refl
                  (entero-EsInt32 p.stack_pointer.pagina n.1.1.1.0),
              (
                campo_fijo (codes "stackOffset") (sin_signo p.stack_pointer.offset) refl
                    (entero-EsInt32 p.stack_pointer.offset n.1.1.1.1.0),
                (
                  campo_fijo (codes "stackSize") (sin_signo p.stack_pointer.size) refl
                      (entero-EsInt32 p.stack_pointer.size n.1.1.1.1.1.0),
                  (
                    campo_fijo (codes "stackLevel") (sin_signo p.stack_level) refl
                        (entero-EsInt32 p.stack_level n.1.1.1.1.1.1.0),
                    (
                      campo_fijo (codes "continua_activo") (sin_signo p.estado_en_cpu) refl
                          (entero-EsInt32 p.estado_en_cpu n.1.1.1.1.1.1.1.0),
                      (
                        campo_fijo (codes "cantidad_rafagas") (sin_signo p.cantidad_rafagas) refl
                            (entero-EsInt32 p.cantidad_rafagas n.1.1.1.1.1.1.1.1.0),
                        (
                          campo_fijo (codes "descriptor") (sin_signo p.descriptor) refl
                              (entero-EsInt32 p.descriptor n.1.1.1.1.1.1.1.1.1.0),
                          (
                            campo_fijo (codes "direccion") (texto (o_guion p.direccion)) refl
                                (o_guion-EsTexto p.direccion h.textos.0),
                            (
                              campo_fijo (codes "creacion") (sin_signo p.creacion) refl
                                  (entero-EsInt32 p.creacion n.1.1.1.1.1.1.1.1.1.1.0),
                              (
                                campo_fijo (codes "escritura") (sin_signo p.escritura) refl
                                    (entero-EsInt32 p.escritura n.1.1.1.1.1.1.1.1.1.1.1.0),
                                (
                                  campo_fijo (codes "lectura") (sin_signo p.lectura) refl
                                      (entero-EsInt32 p.lectura n.1.1.1.1.1.1.1.1.1.1.1.1.0),
                                  (
                                    campo_fijo (codes "offsetArch") (sin_signo p.offset_arch) refl (
                                        entero-EsInt32 p.offset_arch n.1.1.1.1.1.1.1.1.1.1.1.1.1.0),
                                    (
                                      campo_fijo (codes "tamAEscribir") (sin_signo p.tam_a_escribir)
                                          refl
                                          (entero-EsInt32 p.tam_a_escribir
                                            n.1.1.1.1.1.1.1.1.1.1.1.1.1.1.0),
                                      (
                                        campo_fijo (codes "infoAEscribir")
                                            (texto (o_guion p.informacion_escribir)) refl
                                            (o_guion-EsTexto p.informacion_escribir h.textos.1),
                                        (
                                          campo_fijo (codes "contEtiquetas")
                                              (numero (pos (length p.indice_etiquetas))) refl
                                              h.largos.0,
                                          (
                                            campo_fijo (codes "nombre_semaforo")
                                                (texto (o_guion p.nombre_semaforo)) refl
                                                (o_guion-EsTexto p.nombre_semaforo h.textos.2),
                                            tt,
                                          ),
                                        ),
                                      ),
                                    ),
                                  ),
                                ),
                              ),
                            ),
                          ),
                        ),
                      ),
                    ),
                  ),
                ),
              ),
            ),
          ),
        ),
      )

  pub propios : All (λ c. (clase c.0 ≡ 0) ⊎ (clase c.0 ≡ 5)) (campos_fijos_respuesta p)
  unfolding clase
  propios = (
    inl refl,
    (
      inl refl,
      (
        inl refl,
        (
          inl refl,
          (
            inl refl,
            (
              inl refl,
              (
                inl refl,
                (
                  inl refl,
                  (
                    inl refl,
                    (
                      inl refl,
                      (
                        inl refl,
                        (
                          inl refl,
                          (
                            inl refl,
                            (
                              inl refl,
                              (inr refl, (inl refl, (inl refl, (inl refl, (inl refl, tt))))),
                            ),
                          ),
                        ),
                      ),
                    ),
                  ),
                ),
              ),
            ),
          ),
        ),
      ),
    ),
  )

  abbrev pub niveles : List (Nivel VariablesStack)
  niveles = mapear nivel_en_kernel p.indice_stack

  pub validos : All (EsNivelValido formato_kernel) niveles
  validos = All-de_mapear (EsNivelValido formato_kernel) nivel_en_kernel p.indice_stack (
      All-mapear (EsNivelValido formato_cpu) (λ n. EsNivelValido formato_kernel (nivel_en_kernel n))
        nivel-valido p.indice_stack h.validos)
