-- ===== src/Sistema/Carga.antt =====
-- The loading of a script by src/kernel/kernel.c into the frames of src/memoria/memoria.c.
use tp_sisop_1c_2017_david.Prelude.{
  ℕ, suc, ◌+◌, ◌*◌, ◌<◌, ℤ, pos, Bool, true, ◌≡◌, sym, subst, ap, ◌∙◌, Option, none, some, List,
  length, replicate, length-replicate, Commons,
}
use tp_sisop_1c_2017_david.Memoria.Estado.{Memoria}
use tp_sisop_1c_2017_david.Kernel.Minify.{get_cadena_contatenada}
use tp_sisop_1c_2017_david.Kernel.Planificacion.{Pcb}
use tp_sisop_1c_2017_david.Kernel.Carga.{reservar_memoria_para_proceso}
use tp_sisop_1c_2017_david.Kernel.Carga.Paginas.{Guarda, Cargado, reservar_memoria_para_proceso_lem}
use tp_sisop_1c_2017_david.Sistema.{atender_consulta, hilo_kernel}
use tp_sisop_1c_2017_david.Sistema.Lugar.{HayLugar, paso}

-- The server goes on, and has room.
abbrev pub LugarEn : ℕ → ℕ → ℤ → ℕ → Option Memoria → Type 0
LugarEn tam n pid k none = ⊥
LugarEn tam n pid k (some s) = HayLugar tam n pid k s

module _ ⦃commons : Commons ℤ⦄ (tam : ℕ) (positivo : 0 < tam) where
  -- The memory server of the program is one that the loading can rely on.
  pub hilo_kernel-Guarda : Guarda hilo_kernel tam atender_consulta (LugarEn tam)
  hilo_kernel-Guarda = record {
    concede = concede;
    guarda = guarda;
    conserva = conserva;
    sigue = sigue;
  }
    where
      concede :
          (m : Option Memoria) (pid : ℤ) (k n : ℕ)
          → LugarEn tam (suc n) pid k m
          → ◌≡◌ {A = Bool × (ℤ × ℕ)} (hilo_kernel.reservar m pid k).1 (true, (pos 0, tam))
      concede none pid k n l = absurd l
      concede (some s) pid k n l =
          let p = paso tam n pid k (replicate tam 0) l positivo (length-replicate tam 0) in
          p.concedida

      guarda :
          (m : Option Memoria) (pid : ℤ) (k n : ℕ) (b : List ℕ)
          → LugarEn tam (suc n) pid k m
          → length b ≡ tam
          → atender_consulta (hilo_kernel.guardar (hilo_kernel.reservar m pid k).0 pid k b) pid k
            ≡ b
      guarda none pid k n b l e = absurd l
      guarda (some s) pid k n b l e =
          let p = paso tam n pid k b l positivo e in
          ap (λ m. atender_consulta m pid k) p.guardada ∙ p.leida

      conserva :
          (m : Option Memoria) (pid : ℤ) (k n j : ℕ) (b : List ℕ)
          → LugarEn tam (suc n) pid k m
          → length b ≡ tam
          → j < k
          → atender_consulta (hilo_kernel.guardar (hilo_kernel.reservar m pid k).0 pid k b) pid j
            ≡ atender_consulta m pid j
      conserva none pid k n j b l e h = absurd l
      conserva (some s) pid k n j b l e h =
          let p = paso tam n pid k b l positivo e in
          ap (λ m. atender_consulta m pid j) p.guardada ∙ p.previas j h

      sigue :
          (m : Option Memoria) (pid : ℤ) (k n : ℕ) (b : List ℕ)
          → LugarEn tam (suc n) pid k m
          → length b ≡ tam
          → LugarEn tam n pid (k + 1) (hilo_kernel.guardar (hilo_kernel.reservar m pid k).0 pid k b)
      sigue none pid k n b l e = absurd l
      sigue (some s) pid k n b l e =
          let p = paso tam n pid k b l positivo e in
          subst (λ m. LugarEn tam n pid (k + 1) m) (sym p.guardada) p.lugar

  -- Where the memory server, in a valid state with pages that are not empty, has free frames, with blocks inside
  -- its allocation, for the pages of the script that was prepared and one more, and the process, whose number is
  -- not -1, has no page from the first one on that it asks for, and with fuel above the length of the script,
  -- `reservarMemoriaParaProceso` ends, with the script in the first pages of the process, cut at their size and
  -- filled up with zeros, no page more than it takes, and the page of the stack behind them, as the memory server
  -- reads them.
  pub reservar_memoria_para_proceso-hilo :
      (fuel : ℕ) (script : List ℕ) (s : Memoria) (p : Pcb) (n : ℕ)
      → get_cadena_contatenada p.script ≡ some script
      → HayLugar tam (suc n) p.pid p.paginas_pedidas s
      → length script < n * tam
      → length script + 1 < fuel
      → (r : Option Memoria × Pcb) × (◌≡◌ {A = Option (Option Memoria × Pcb)}
          (reservar_memoria_para_proceso hilo_kernel fuel (some s) p)
          (some r))
        × Cargado hilo_kernel tam atender_consulta
            (LugarEn tam)
            hilo_kernel-Guarda
            positivo
            script
            p
            r
  reservar_memoria_para_proceso-hilo fuel script s p n e l cabe h =
      reservar_memoria_para_proceso_lem hilo_kernel tam atender_consulta (LugarEn tam)
        hilo_kernel-Guarda positivo fuel script (some s) p n e l cabe h
