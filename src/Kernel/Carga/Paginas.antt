-- ===== src/Kernel/Carga/Paginas.antt =====
-- What the memory server holds of a script that src/kernel/kernel.c loaded.
use tp_sisop_1c_2017_david.Prelude.{
  ℕ, zero, suc, ◌+◌, ◌-◌, ◌*◌, ◌≤◌, ◌<◌, ℤ, pos, Bool, true, lt→ltb, le→ltb_false, dec_lt, ◌≡◌,
  refl, subst, sym, ap, ◌∙◌, Option, some, ◌>>=◌, List, [], ◌∷◌, ◌++◌, length, replicate, arith,
  length-append, length-take, length-drop, length-replicate, take, drop,
}
use tp_sisop_1c_2017_david.Kernel.Minify.{get_cadena_contatenada}
use tp_sisop_1c_2017_david.Kernel.Planificacion.{Pcb}
use tp_sisop_1c_2017_david.Kernel.Carga.{
  Servidor, pagina_de, pedir_pagina_para_proceso, tras_pedido, stack_en, cargar_pagina,
  cargar_paginas, cargar_stack, reservar_memoria_para_proceso,
}

-- A memory server of pages of `tam` bytes, as one that loads a script relies on it: `Lugar n pid k m` says that it
-- has room for `n` more pages of a process, from its page `k` on, and `leer` is what it holds in a page.
pub record Guarda {σ : Type 0} (servidor : Servidor σ) (tam : ℕ) (leer : σ → ℤ → ℕ → List ℕ)
    (Lugar : ℕ → ℤ → ℕ → σ → Type 0) : Type 0 where
  pub concede :
      (m : σ) (pid : ℤ) (k n : ℕ)
      → Lugar (suc n) pid k m
      → ◌≡◌ {A = Bool × (ℤ × ℕ)} (servidor.reservar m pid k).1 (true, (pos 0, tam))
  pub guarda :
      (m : σ) (pid : ℤ) (k n : ℕ) (b : List ℕ)
      → Lugar (suc n) pid k m
      → length b ≡ tam
      → leer (servidor.guardar (servidor.reservar m pid k).0 pid k b) pid k ≡ b
  pub conserva :
      (m : σ) (pid : ℤ) (k n j : ℕ) (b : List ℕ)
      → Lugar (suc n) pid k m
      → length b ≡ tam
      → j < k
      → leer (servidor.guardar (servidor.reservar m pid k).0 pid k b) pid j ≡ leer m pid j
  pub sigue :
      (m : σ) (pid : ℤ) (k n : ℕ) (b : List ℕ)
      → Lugar (suc n) pid k m
      → length b ≡ tam
      → Lugar n pid (k + 1) (servidor.guardar (servidor.reservar m pid k).0 pid k b)

-- A page of the script is as long as a page.
length-pagina_de :
    (tam : ℕ) (script : List ℕ) (offset : ℕ) → length (pagina_de tam script offset) ≡ tam
length-pagina_de tam script offset = elim (dec_lt (length script - offset) tam) [
  | yes h ↦
      rw (lt→ltb (length script - offset) tam h)
        (largo (length script - offset) (length-drop offset script) (omega arith))
  | no h ↦
      rw (le→ltb_false (length script - offset) tam (omega arith))
        (largo tam (length-drop offset script) (omega arith))
]
  where
    largo :
        (n : ℕ)
        → length (drop offset script) ≡ length script - offset
        → (n ≤ length script - offset) × (n ≤ tam)
        → length (take n (drop offset script) ++ replicate (tam - n) 0) ≡ tam
    largo n e h = omega (
      arith,
      length-append (take n (drop offset script)) (replicate (tam - n) 0),
      length-take n (drop offset script),
      length-replicate {A = ℕ} (tam - n) 0,
      e,
      h,
    )

module _ {σ : Type 0} (servidor : Servidor σ) (tam : ℕ) (leer : σ → ℤ → ℕ → List ℕ)
    (Lugar : ℕ → ℤ → ℕ → σ → Type 0) (leyes : Guarda servidor tam leer Lugar) (hay : 0 < tam) where
  pedir_lem :
      (p : Pcb) (m : σ) (n : ℕ)
      → Lugar (suc n) p.pid p.paginas_pedidas m
      → ◌≡◌ {A = σ × ℕ}
          (pedir_pagina_para_proceso servidor p m)
          ((servidor.reservar m p.pid p.paginas_pedidas).0, tam)
  unfolding pedir_pagina_para_proceso
  pedir_lem p m n l =
      rw (pedir_pagina_para_proceso, leyes.concede m p.pid p.paginas_pedidas n l) refl

  cargar_pagina_lem :
      (script : List ℕ) (offset : ℕ) (m : σ) (p : Pcb) (n : ℕ)
      → Lugar (suc n) p.pid p.paginas_pedidas m
      → let m₁ = (servidor.reservar m p.pid p.paginas_pedidas).0 in
        ◌≡◌ {A = (σ × Pcb) × ℕ} (cargar_pagina servidor script offset m p) (
          (
            servidor.guardar m₁ p.pid p.paginas_pedidas (pagina_de tam script offset),
            record p { tam_pagina = tam; paginas_pedidas = p.paginas_pedidas + 1 },
          ),
          offset + tam,
        )
  unfolding cargar_pagina
  cargar_pagina_lem script offset m p n l =
      ap (tras_pedido servidor script offset p) (pedir_lem p m n l)

  -- The pages that the loop leaves from an offset on.
  pub record Cargadas (script : List ℕ) (offset : ℕ) (m : σ) (p : Pcb) (r : σ × Pcb) : Type 0 where
    pub cantidad : ℕ
    pub alcanza : length script ≤ offset + cantidad * tam
    pub justa : (j : ℕ) → j < cantidad → offset + j * tam < length script
    pub pid : r.1.pid ≡ p.pid
    pub pedidas : r.1.paginas_pedidas ≡ p.paginas_pedidas + cantidad
    pub hojas :
        (j : ℕ)
        → j < cantidad
        → leer r.0 p.pid (p.paginas_pedidas + j) ≡ pagina_de tam script (offset + j * tam)
    pub previas : (j : ℕ) → j < p.paginas_pedidas → leer r.0 p.pid j ≡ leer m p.pid j
    pub resta : ℕ
    pub lugar : Lugar (suc resta) p.pid (p.paginas_pedidas + cantidad) r.0

  suc_por : (j : ℕ) → suc j * tam ≡ tam + j * tam
  suc_por j = grind arith

  -- One more page in front.
  una_mas :
      (script : List ℕ) (offset : ℕ) (m : σ) (p : Pcb) (n : ℕ) {r : σ × Pcb}
      → Lugar (suc n) p.pid p.paginas_pedidas m
      → offset < length script
      → let m₁ = (servidor.reservar m p.pid p.paginas_pedidas).0 in
        let m₂ = servidor.guardar m₁ p.pid p.paginas_pedidas (pagina_de tam script offset) in
        Cargadas script
          (offset + tam)
          m₂
          (record p { tam_pagina = tam; paginas_pedidas = p.paginas_pedidas + 1 })
          r
        → Cargadas script offset m p r
  una_mas script offset m p n {r} l menor c =
      let k = p.paginas_pedidas in
      record {
        cantidad = suc c.cantidad;
        alcanza = omega (arith, c.alcanza, suc_por c.cantidad);
        justa = vale;
        pid = c.pid;
        pedidas = omega (arith, c.pedidas);
        hojas = hoja;
        previas = λ j h.
            c.previas j (omega arith)
            ∙ leyes.conserva m p.pid k n j (pagina_de tam script offset) l
                (length-pagina_de tam script offset) h;
        resta = c.resta;
        lugar = subst (λ t. Lugar (suc c.resta) p.pid t r.0) (omega arith) c.lugar;
      }
    where
      vale : (j : ℕ) → j < suc c.cantidad → offset + j * tam < length script
      vale zero h = omega arith
      vale (suc j) h = omega (arith, c.justa j (omega arith), suc_por j)

      hoja :
          (j : ℕ)
          → j < suc c.cantidad
          → leer r.0 p.pid (p.paginas_pedidas + j) ≡ pagina_de tam script (offset + j * tam)
      hoja zero h =
          let donde : p.paginas_pedidas + 0 ≡ p.paginas_pedidas = omega arith in
          let desde : offset + 0 * tam ≡ offset = omega arith in
          rw (donde, desde)
            (c.previas p.paginas_pedidas (omega arith)
              ∙ leyes.guarda m p.pid p.paginas_pedidas n (pagina_de tam script offset) l
                  (length-pagina_de tam script offset))
      hoja (suc j) h =
          let donde : p.paginas_pedidas + suc j ≡ p.paginas_pedidas + 1 + j = omega arith in
          let desde : offset + suc j * tam ≡ offset + tam + j * tam = omega (arith, suc_por j) in
          rw (donde, desde) (c.hojas j (omega arith))

  -- With fuel above the number of bytes that are left, and room for them and one page more, the loop ends.
  cargar_paginas_lem :
      (fuel : ℕ) (script : List ℕ) (offset : ℕ) (m : σ) (p : Pcb) (n : ℕ)
      → Lugar (suc n) p.pid p.paginas_pedidas m
      → length script ≤ offset + n * tam
      → length script - offset < fuel
      → (r : σ × Pcb) × (◌≡◌ {A = Option (σ × Pcb)}
          (cargar_paginas servidor fuel script offset m p)
          (some r))
        × Cargadas script offset m p r
  unfolding cargar_paginas
  cargar_paginas_lem zero script offset m p n l g h = absurd (omega arith)
  cargar_paginas_lem (suc fuel) script offset m p n l g h = elim (dec_lt offset (length script)) [
    | yes q ↦
        let m₁ = (servidor.reservar m p.pid p.paginas_pedidas).0 in
        let m₂ = servidor.guardar m₁ p.pid p.paginas_pedidas (pagina_de tam script offset) in
        let una : n ≡ suc (n - 1) = hay_una n offset q g in
        let cuenta : n * tam ≡ tam + (n - 1) * tam = ap (λ t. t * tam) una ∙ suc_por (n - 1) in
        let ih =
          cargar_paginas_lem fuel script (offset + tam) m₂
            (record p { tam_pagina = tam; paginas_pedidas = p.paginas_pedidas + 1 }) (n - 1)
            (leyes.sigue m p.pid p.paginas_pedidas (suc (n - 1)) (pagina_de tam script offset)
              (subst (λ t. Lugar (suc t) p.pid p.paginas_pedidas m) una l)
              (length-pagina_de tam script offset))
            (omega (arith, cuenta)) (omega arith) in
        (
          ih.0,
          rw (cargar_paginas, lt→ltb offset (length script) q) refl
              ∙ ap (λ r. cargar_paginas servidor fuel script r.1 r.0.0 r.0.1)
                  (cargar_pagina_lem script offset m p n l)
              ∙ ih.1,
          una_mas script offset m p n l q ih.2,
        )
    | no q ↦ (
      (m, p),
      rw (cargar_paginas, le→ltb_false offset (length script) (omega arith)) refl,
      record {
        cantidad = 0;
        alcanza = omega arith;
        justa = λ j k. absurd (omega arith);
        pid = refl;
        pedidas = omega arith;
        hojas = λ j k. absurd (omega arith);
        previas = λ j k. refl;
        resta = n;
        lugar = subst (λ t. Lugar (suc n) p.pid t m) (omega arith) l;
      },
    )
  ]
    where
      hay_una : (i o : ℕ) → o < length script → length script ≤ o + i * tam → i ≡ suc (i - 1)
      hay_una zero o a b = absurd (omega arith)
      hay_una (suc i) o a b = omega arith

  -- The pages of a process that was loaded: those of the script, with the 0 at its end, from its first page on,
  -- then one of zeros for the stack, and behind it the first page of the heap.
  pub record Cargado (script : List ℕ) (p : Pcb) (r : σ × Pcb) : Type 0 where
    pub cantidad : ℕ
    pub alcanza : length script < cantidad * tam
    pub justa : (j : ℕ) → j < cantidad → j * tam ≤ length script
    pub hojas :
        (j : ℕ)
        → j < cantidad
        → leer r.0 p.pid (p.paginas_pedidas + j) ≡ pagina_de tam (script ++ (0 ∷ [])) (j * tam)
    pub stack : leer r.0 p.pid (p.paginas_pedidas + cantidad) ≡ replicate tam 0
    pub stack_pagina : r.1.stack_pagina ≡ p.paginas_pedidas + cantidad
    pub primer_pagina_heap : r.1.primer_pagina_heap ≡ p.paginas_pedidas + cantidad + 1
    pub pedidas : r.1.paginas_pedidas ≡ p.paginas_pedidas + cantidad + 1

  stack_en-Cargado :
      (script : List ℕ) (m : σ) (p : Pcb) (r : σ × Pcb)
      → Cargadas (script ++ (0 ∷ [])) 0 m p r
      → Cargado script p
          (stack_en servidor r.1 ((servidor.reservar r.0 r.1.pid r.1.paginas_pedidas).0, tam))
  stack_en-Cargado script m p r c =
      let largo = length-append script (0 ∷ []) in
      record {
        cantidad = c.cantidad;
        alcanza = omega (arith, largo, c.alcanza);
        justa = λ j h. omega (arith, largo, c.justa j h);
        hojas = λ j h.
            rw (c.pid, c.pedidas)
              (leyes.conserva r.0 p.pid (p.paginas_pedidas + c.cantidad) c.resta
                  (p.paginas_pedidas + j) (replicate tam 0) c.lugar (length-replicate tam 0)
                  (omega arith)
                ∙ c.hojas j h
                ∙ ap (pagina_de tam (script ++ (0 ∷ []))) (omega arith));
        stack =
            rw (c.pid, c.pedidas)
              (leyes.guarda r.0 p.pid (p.paginas_pedidas + c.cantidad) c.resta (replicate tam 0)
                c.lugar (length-replicate tam 0));
        stack_pagina = c.pedidas;
        primer_pagina_heap = omega (arith, c.pedidas);
        pedidas = omega (arith, c.pedidas);
      }

  cargar_stack-Cargado :
      (script : List ℕ) (m : σ) (p : Pcb) (r : σ × Pcb)
      → Cargadas (script ++ (0 ∷ [])) 0 m p r
      → Cargado script p (cargar_stack servidor r.0 r.1)
  unfolding cargar_stack
  cargar_stack-Cargado script m p r c =
      subst (λ t. Cargado script p (stack_en servidor r.1 t))
        (sym (pedir_lem r.1 r.0 c.resta (rw (c.pid, c.pedidas) c.lugar)))
        (stack_en-Cargado script m p r c)

  -- With room for the pages of the script that was prepared and one more, and fuel above its length,
  -- `reservarMemoriaParaProceso` ends, with the script and the stack in the pages of the process.
  pub reservar_memoria_para_proceso_lem :
      (fuel : ℕ) (script : List ℕ) (m : σ) (p : Pcb) (n : ℕ)
      → get_cadena_contatenada p.script ≡ some script
      → Lugar (suc n) p.pid p.paginas_pedidas m
      → length script < n * tam
      → length script + 1 < fuel
      → (r : σ × Pcb) × (◌≡◌ {A = Option (σ × Pcb)}
          (reservar_memoria_para_proceso servidor fuel m p)
          (some r))
        × Cargado script p r
  unfolding reservar_memoria_para_proceso
  reservar_memoria_para_proceso_lem fuel script m p n e l g h =
      let largo = length-append script (0 ∷ []) in
      let r =
        cargar_paginas_lem fuel (script ++ (0 ∷ [])) 0 m p n l (omega (arith, largo))
          (omega (arith, largo)) in
      (
        cargar_stack servidor r.0.0 r.0.1,
        rw (reservar_memoria_para_proceso, e, ◌>>=◌, r.1) refl,
        cargar_stack-Cargado script m p r.0 r.2,
      )
