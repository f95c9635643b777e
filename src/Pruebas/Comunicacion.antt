-- ===== src/Pruebas/Comunicacion.antt =====
-- Messages of src/comunicacion/comunicacion.c with two fields.
use tp_sisop_1c_2017_david.Prelude.{
  ℕ, pos, negsuc, inl, ◌≡◌, refl, some, List, [], ◌∷◌, codes, partes, no_vacias, arith,
}
use tp_sisop_1c_2017_david.Comunicacion.{
  Mensaje, com_nuevo_mensaje, com_agregar_int, com_agregar_string, com_leer_int, com_leer_string,
  tokens, formatear, atoi, buscar_clave, digitos, leer_digitos,
}
use tp_sisop_1c_2017_david.Comunicacion.Campos.{
  Campo, numero, texto, valor_de, cuerpo, Lleva, com_agregar_int-Lleva, com_agregar_string-Lleva,
}
use tp_sisop_1c_2017_david.Comunicacion.Lectura.{
  com_leer_lem, como_int, como_texto, com_leer_int_desalineado,
}

abbrev mensaje : Mensaje
mensaje =
    com_agregar_string (com_agregar_int (com_nuevo_mensaje 109) (codes "pid") (negsuc 6))
      (codes "variable") (codes "!Global")

abbrev campos : List (List ℕ × Campo)
campos = (codes "pid", numero (negsuc 6)) ∷ (codes "variable", texto (codes "!Global")) ∷ []

menos_siete : formatear (negsuc 6) ≡ codes "-000000007"
unfolding formatear digitos
menos_siete = refl

leer_pid : com_leer_int mensaje (codes "pid") ≡ some (negsuc 6)
unfolding com_leer_int com_agregar_int com_agregar_string tokens buscar_clave atoi leer_digitos
    formatear digitos partes no_vacias
leer_pid = refl

vacio-Lleva : Lleva (com_nuevo_mensaje 109) []
unfolding cuerpo
vacio-Lleva = record { cuerpos = refl; enviado = inl refl }

numero-Lleva :
    Lleva
      (com_agregar_int (com_nuevo_mensaje 109) (codes "pid") (negsuc 6))
      ((codes "pid", numero (negsuc 6)) ∷ [])
numero-Lleva =
    com_agregar_int-Lleva (com_nuevo_mensaje 109) [] (codes "pid") (negsuc 6) (omega arith)
      vacio-Lleva

mensaje-Lleva : Lleva mensaje campos
mensaje-Lleva =
    com_agregar_string-Lleva (com_agregar_int (com_nuevo_mensaje 109) (codes "pid") (negsuc 6))
      ((codes "pid", numero (negsuc 6)) ∷ []) (codes "variable") (codes "!Global")
      (com_agregar_int-Lleva (com_nuevo_mensaje 109) [] (codes "pid") (negsuc 6) (omega arith)
        vacio-Lleva)

com_leer_lem_example :
    (com_leer_int mensaje (codes "variable") ≡ some (como_int (valor_de (codes "variable") campos)))
    × (com_leer_string mensaje (codes "variable")
        ≡ some (como_texto (valor_de (codes "variable") campos)))
unfolding com_agregar_int com_agregar_string formatear digitos
com_leer_lem_example = com_leer_lem mensaje campos (codes "variable") mensaje-Lleva (omega arith) (
  (omega arith, (refl, (refl, (refl, tt))), omega arith),
  (
    (
      omega arith,
      (refl, (refl, (refl, (refl, (refl, (refl, (refl, (refl, tt)))))))),
      (omega arith, (refl, (refl, (refl, (refl, (refl, (refl, (refl, tt)))))))),
    ),
    tt,
  ),
)

com_leer_int_desalineado_example :
    com_leer_int
      (com_agregar_int
        (com_agregar_string (com_nuevo_mensaje 109) (codes "texto") [])
        (codes "pid")
        (pos 5))
      (codes "pid")
    ≡ some (pos 0)
unfolding formatear digitos
com_leer_int_desalineado_example =
    com_leer_int_desalineado 109 (codes "texto") (codes "pid") (pos 5) (omega arith)
      (omega arith, (refl, (refl, (refl, (refl, (refl, tt))))))
      (omega arith, (refl, (refl, (refl, tt)))) refl refl
