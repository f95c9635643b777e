-- ===== src/Contexto/Viaje.antt =====
-- A process as src/kernel/kernel.c and src/cpu/cpu.c hold it, and the fields that both make of it.
use tp_sisop_1c_2017_david.Prelude.{
  ℕ, suc, ◌≡◌, refl, ap, ap₂, ◌∙◌, ◌++◌, List, [], ◌∷◌, ℤ, pos, length, codes, All,
}
use tp_sisop_1c_2017_david.Comunicacion.Campos.{Campo, numero, EsCampo}
use tp_sisop_1c_2017_david.Comunicacion.Claves.{decimal}
use tp_sisop_1c_2017_david.Comunicacion.Secuencias.{numerados}
use tp_sisop_1c_2017_david.Comunicacion.Seleccion.{All-append, All-numerados}
use tp_sisop_1c_2017_david.Cpu.Variables.{Variable}
use tp_sisop_1c_2017_david.Contexto.{
  Etiqueta, Nivel, Codigo, Formato, campos_etiqueta, campos_variable, campos_argumento,
  campos_marco, campos_nivel,
}
use tp_sisop_1c_2017_david.Contexto.Validos.{
  EsEtiqueta, EsLargo, EsNivelValido, campo_fijo, limpio, EsCampo-etiqueta, EsCampo-nivel,
}
use tp_sisop_1c_2017_david.Contexto.Partes.{campos_proceso}
use tp_sisop_1c_2017_david.Kernel.Planificacion.{Pcb, VariablesStack}
use tp_sisop_1c_2017_david.Kernel.Minify.{MapInstruccion}
use tp_sisop_1c_2017_david.Kernel.Contexto.{
  formato_kernel, campos_fijos_contexto, campos_contexto, campos_instruccion,
}
use tp_sisop_1c_2017_david.Cpu.Contexto.{formato_cpu}

abbrev pub mapear : {A B : Type 0} → (A → B) → List A → List B
mapear f [] = []
mapear f (x ∷ xs) = f x ∷ mapear f xs

-- A variable, a level and an instruction of one program in the other.
abbrev pub variable_en_kernel : Variable → VariablesStack
variable_en_kernel v = record { id = v.id ∷ []; posicion = v.posicion }

abbrev pub nivel_en_kernel : Nivel Variable → Nivel VariablesStack
nivel_en_kernel n = record {
  id = n.id;
  argumento = n.argumento;
  variable = mapear variable_en_kernel n.variable;
  ret_pos = n.ret_pos;
  ret_var = n.ret_var;
}

abbrev pub codigo_en_cpu : MapInstruccion → Codigo
codigo_en_cpu i = record { pagina = i.pagina; offset = i.offset; size = i.size }

pub length-mapear : {A B : Type 0} (f : A → B) (xs : List A) → length (mapear f xs) ≡ length xs
length-mapear f [] = refl
length-mapear f (x ∷ xs) = ap suc (length-mapear f xs)

pub All-de_mapear :
    {A B : Type 0} (P : B → Type 0) (f : A → B) (xs : List A)
    → All (λ x. P (f x)) xs
    → All P (mapear f xs)
All-de_mapear P f [] a = tt
All-de_mapear P f (x ∷ xs) a = (a.0, All-de_mapear P f xs a.1)

pub numerados-mapear :
    {A B : Type 0} (f : ℕ → B → List (List ℕ × Campo)) (g : ℕ → A → List (List ℕ × Campo))
    (h : A → B)
    → ((i : ℕ) (x : A) → f i (h x) ≡ g i x)
    → (s : ℕ) (xs : List A) → numerados f s (mapear h xs) ≡ numerados g s xs
unfolding numerados
numerados-mapear f g h e s [] = refl
numerados-mapear f g h e s (x ∷ xs) =
    ap₂ (λ a b. a ++ b) (e s x) (numerados-mapear f g h e (suc s) xs)

campos_nivel-kernel :
    (i : ℕ) (n : Nivel Variable)
    → campos_nivel formato_kernel i (nivel_en_kernel n) ≡ campos_nivel formato_cpu i n
campos_nivel-kernel i n =
    let armar : ℕ → List (List ℕ × Campo) → List (List ℕ × Campo) = λ largo vs.
      campos_marco i n
      ++ (numerados (campos_argumento i) 0 n.argumento
          ++ (((codes "contVariable" ++ decimal i, numero (pos largo)) ∷ []) ++ vs)) in
    ap₂ armar (length-mapear variable_en_kernel n.variable) (
      numerados-mapear (campos_variable formato_kernel i) (campos_variable formato_cpu i)
        variable_en_kernel (λ v x. refl) 0 n.variable)

-- The fields of the stack, written by the kernel or by a CPU.
pub campos_stack :
    (niveles : List (Nivel Variable))
    → numerados (campos_nivel formato_kernel) 0 (mapear nivel_en_kernel niveles)
      ≡ numerados (campos_nivel formato_cpu) 0 niveles
campos_stack niveles =
    numerados-mapear (campos_nivel formato_kernel) (campos_nivel formato_cpu) nivel_en_kernel
      campos_nivel-kernel 0 niveles

-- What follows the stack in a message to a CPU.
abbrev pub campos_codigos : List MapInstruccion → List (List ℕ × Campo)
campos_codigos is =
    ((codes "cantInst", numero (pos (length is))) ∷ []) ++ numerados campos_instruccion 0 is

pub campos_contexto-proceso :
    (algoritmo : List ℕ) (stack_max_size : ℤ) (pcb : Pcb) (niveles : List (Nivel Variable))
    → pcb.stack ≡ mapear nivel_en_kernel niveles
    → campos_contexto algoritmo stack_max_size pcb
      ≡ campos_proceso formato_cpu
          (campos_fijos_contexto algoritmo stack_max_size pcb)
          pcb.indice_etiquetas
          niveles
          (campos_codigos pcb.instrucciones)
campos_contexto-proceso algoritmo stack_max_size pcb niveles e =
    let armar : ℕ → List (List ℕ × Campo) → List (List ℕ × Campo) = λ largo st.
      campos_fijos_contexto algoritmo stack_max_size pcb
      ++ (numerados campos_etiqueta 0 pcb.indice_etiquetas
          ++ (((codes "contStack", numero (pos largo)) ∷ [])
              ++ (st ++ campos_codigos pcb.instrucciones))) in
    ap₂ armar (ap length e ∙ length-mapear nivel_en_kernel niveles)
      (ap (numerados (campos_nivel formato_kernel) 0) e ∙ campos_stack niveles)

-- The fields of a process survive the way.
pub EsCampo-proceso :
    {ν : Type 0} (formato : Formato ν) (fijos : List (List ℕ × Campo)) (etiquetas : List Etiqueta)
    (niveles : List (Nivel ν)) (cola : List (List ℕ × Campo))
    → All EsCampo fijos
    → All EsEtiqueta etiquetas
    → EsLargo (length niveles)
    → All (EsNivelValido formato) niveles
    → All EsCampo cola
    → All EsCampo (campos_proceso formato fijos etiquetas niveles cola)
unfolding limpio
EsCampo-proceso formato fijos etiquetas niveles cola f e l n c =
    let st = numerados (campos_nivel formato) 0 niveles in
    let contado : List ℕ × Campo = (codes "contStack", numero (pos (length niveles))) in
    All-append EsCampo fijos (numerados campos_etiqueta 0 etiquetas ++ (contado ∷ (st ++ cola))) f (
      All-append EsCampo (numerados campos_etiqueta 0 etiquetas) (contado ∷ (st ++ cola))
        (All-numerados campos_etiqueta EsCampo EsEtiqueta EsCampo-etiqueta 0 etiquetas e)
        (
          campo_fijo (codes "contStack") (numero (pos (length niveles))) refl l,
          All-append EsCampo st cola
              (All-numerados (campos_nivel formato) EsCampo (EsNivelValido formato)
                (EsCampo-nivel formato) 0 niveles n)
              c,
        ))
