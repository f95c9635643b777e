-- ===== src/Pruebas/Llamadas.antt =====
-- Jumps, calls and returns of a process of two instructions, src/cpu/cpu.c.
use tp_sisop_1c_2017_david.Prelude.{
  partes, no_vacias, ◌≡◌, refl, ◌>>=◌, none, some, List, [], ◌∷◌, pos, false, codes, listas_puras,
  arith,
}
use tp_sisop_1c_2017_david.Comunicacion.{
  com_nuevo_mensaje, iguales, com_leer_int, com_leer_string, tokens, atoi, leer_digitos,
  buscar_clave, com_agregar_int, com_agregar_string, formatear, digitos,
}
use tp_sisop_1c_2017_david.Comunicacion.Campos.{numero, texto}
use tp_sisop_1c_2017_david.Comunicacion.Secuencias.{agregar_campos}
use tp_sisop_1c_2017_david.Contexto.{Codigo}
use tp_sisop_1c_2017_david.Contexto.Envio.{mensaje_con}
use tp_sisop_1c_2017_david.Cpu.Posiciones.{actualizar_stack_pointer, puntero_convertir_a_posicion}
use tp_sisop_1c_2017_david.Cpu.Contexto.{PcbActivo}
use tp_sisop_1c_2017_david.Cpu.Llamadas.{
  Ejecucion, Servicios, texto_recibido, pedir_a_memoria_string, buscar_sentencia, buscar_nombre,
  villereada, ir_a_funcion, llamar_con_retorno, finalizar,
}
use tp_sisop_1c_2017_david.Cpu.Pedidos.Respuestas.{hacer, mueve, tras_linea, pedido-avisa}
use tp_sisop_1c_2017_david.Cpu.Llamadas.Etiquetas.{ir_a_funcion-falla, ir_a_funcion_lem}
use tp_sisop_1c_2017_david.Cpu.Llamadas.Regreso.{definir_todas, llamar-finalizar}

abbrev codigos : List Codigo
codigos =
    record { pagina = 0; offset = 0; size = 5 } ∷ record { pagina = 0; offset = 5; size = 10 } ∷ []

abbrev activo : PcbActivo
activo = record {
  pid = 1;
  program_counter = 1;
  quantum = 3;
  estado_en_cpu = 1200;
  stack_pointer = record { pagina = 2; offset = 12; size = 4 };
  stack_level = 0;
  indice_codigo = codigos;
  indice_etiquetas = [];
  indice_stack =
      record {
        id = 0;
        argumento = [];
        variable = [];
        ret_pos = 0;
        ret_var = record { pagina = 0; offset = 0; size = 0 };
      }
      ∷ [];
  tam_pagina = 256;
  quantum_retardo = 0;
  direccion = [];
  lectura = 0;
  escritura = 0;
  creacion = 0;
  descriptor = 0;
  offset_arch = 0;
  informacion_escribir = [];
  informacion_leer = codes " ";
  tam_a_escribir = 0;
  cantidad_rafagas = 0;
  volvio_entrada_salida = 0;
  algoritmo = codes "RR";
  stack_max_size = 2;
  nombre_semaforo = [];
  primer_pagina_heap = 3;
}

abbrev ejecucion : Ejecucion
ejecucion = record {
  pcb = activo;
  continuar_ejecutando = 0;
  abortar = false;
  voy_a_entrada_salida = false;
  construccion = 0;
  enviados = [];
}

-- A memory server that answers every time with the same text.
abbrev servicios : Servicios
servicios = record {
  dato = λ p. mensaje_con 201 (
      (codes "resultadoLectura", numero (pos 1))
      ∷ (codes "buffer", texto (codes "function f"))
      ∷ []);
  string_equals_ignore_case = λ s t. iguales s t;
}

dice :
    (c : Codigo)
    → pedir_a_memoria_string servicios c ejecucion ≡ some (ejecucion, some (codes "function f"))
unfolding pedir_a_memoria_string texto_recibido com_leer_int com_leer_string tokens partes no_vacias
    atoi leer_digitos buscar_clave com_agregar_int com_agregar_string formatear digitos
    agregar_campos
dice c = refl

ir_a_funcion_lem_example :
    ir_a_funcion servicios ⦃etiquetas = listas_puras⦄ (codes "f") ejecucion
    ≡ some (record ejecucion { pcb = record activo { program_counter = 0 } })
ir_a_funcion_lem_example =
    ir_a_funcion_lem servicios ⦃etiquetas = listas_puras⦄ (codes "f") ejecucion refl refl
      (λ c. codes "function f") 0 refl (dice _, (dice _, tt)) refl tt refl (omega arith)

-- The process with one label.
abbrev con_etiqueta : Ejecucion
con_etiqueta = record ejecucion {
  pcb = record activo {
    indice_etiquetas = record { etiquetas = codes "otra"; ubicacion = 0 } ∷ [];
  };
}

ir_a_funcion-falla_example :
    ir_a_funcion servicios ⦃etiquetas = listas_puras⦄ (codes "f") con_etiqueta ≡ none
ir_a_funcion-falla_example =
    ir_a_funcion-falla servicios ⦃etiquetas = listas_puras⦄ (codes "f") con_etiqueta refl refl
      (refl, tt) (omega arith) (omega arith)

-- The same after the call of f, whose result goes to the position 2, 0.
abbrev llamada : Ejecucion
llamada = record ejecucion {
  pcb = record activo {
    program_counter = 0;
    stack_level = 1;
    indice_stack =
        record {
          id = 0;
          argumento = [];
          variable = [];
          ret_pos = 0;
          ret_var = record { pagina = 0; offset = 0; size = 0 };
        }
        ∷ record {
          id = 1;
          argumento = [];
          variable = [];
          ret_pos = 1;
          ret_var = record { pagina = 2; offset = 0; size = 4 };
        }
        ∷ [];
  };
}

llama :
    llamar_con_retorno servicios ⦃etiquetas = listas_puras⦄ ⦃niveles = listas_puras⦄
      (codes "f")
      512
      ejecucion
    ≡ some llamada
unfolding llamar_con_retorno ir_a_funcion villereada buscar_nombre buscar_sentencia
    puntero_convertir_a_posicion pedir_a_memoria_string texto_recibido com_leer_int com_leer_string
    tokens partes no_vacias atoi leer_digitos buscar_clave com_agregar_int com_agregar_string
    formatear digitos agregar_campos
llama = refl

-- After the call, the argument 0 and the variable b, the stack pointer is eight bytes further.
llamar-finalizar_example :
    (definir_todas ⦃niveles = listas_puras⦄ ⦃argumentos = listas_puras⦄ ⦃variables = listas_puras⦄
        (48 ∷ 98 ∷ [])
        llamada.pcb
      >>= finalizar ⦃niveles = listas_puras⦄)
    ≡ some (record activo { stack_pointer = record { pagina = 2; offset = 20; size = 4 } })
unfolding actualizar_stack_pointer
llamar-finalizar_example =
    llamar-finalizar ⦃niveles = listas_puras⦄ ⦃argumentos = listas_puras⦄ ⦃variables = listas_puras⦄
      ⦃etiquetas = listas_puras⦄ servicios (codes "f") 512 (48 ∷ 98 ∷ []) ejecucion refl
      (omega arith) (omega arith) llama

-- The move of a cursor, of which the kernel is not told, and the opening of a file.
pedido-avisa_example :
    (hacer (λ p. com_nuevo_mensaje 203) (mueve 3 (pos 5)) ejecucion >>= λ f.
    tras_linea servicios
      (λ s e. some e)
      ⦃etiquetas = listas_puras⦄
      ⦃codigos = listas_puras⦄
      ⦃niveles = listas_puras⦄
      (λ p. com_nuevo_mensaje 203)
      1
      f)
    ≡ some []
pedido-avisa_example =
    pedido-avisa servicios (λ s e. some e) ⦃etiquetas = listas_puras⦄ ⦃codigos = listas_puras⦄
      ⦃niveles = listas_puras⦄ (λ p. com_nuevo_mensaje 203) 0 (mueve 3 (pos 5)) ejecucion tt refl
      (omega arith)
