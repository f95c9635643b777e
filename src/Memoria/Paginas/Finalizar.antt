-- ===== src/Memoria/Paginas/Finalizar.antt =====
-- `finalizarProceso` of src/memoria/memoria.c, and the loop in it.
use tp_sisop_1c_2017_david.Prelude.{
  ℕ, zero, suc, ◌+◌, ◌≤◌, ◌<◌, ℤ, pos, minus_one, ◌≡◌, refl, sym, ap, ◌∙◌, ◌≢◌, ◌⊎◌, inl, inr,
  dec_lt, ℕ_discrete, pos_inj, if◌then◌else◌, none, some, length, arith, Commons,
}
use tp_sisop_1c_2017_david.Memoria.Cache.{cache_activada, eliminar_proceso_en_cache}
use tp_sisop_1c_2017_david.Memoria.Estado.{Memoria}
use tp_sisop_1c_2017_david.Memoria.Paginas.{
  eliminar_desde, eliminar_proceso_en_memoria, eliminar_proceso_de_activos, finalizar_proceso,
  calcular_size_pid, exit_success,
}
use tp_sisop_1c_2017_david.Memoria.Paginas.Invariante.{IsValid, ubicar, calcular_size_pid-lt}
use tp_sisop_1c_2017_david.Memoria.Paginas.Liberar.{Liberada, liberar_pagina_lem}

-- The pages of the process that the loop has freed when it stops at page `hasta`, begun at page `n`.
pub record Eliminado (s : Memoria) (pid : ℤ) (n : ℕ) (s' : Memoria) : Type 0 where
  pub hasta : ℕ
  pub avanza : n ≤ hasta
  pub estaban : (i : ℕ) → n ≤ i → i < hasta → ubicar s pid (pos i) ≢ none
  pub falta : ubicar s pid (pos hasta) ≡ none
  pub perdidas : (i : ℕ) → n ≤ i → i ≤ hasta → ubicar s' pid (pos i) ≡ none
  pub quedan : (i : ℕ) → (i < n) ⊎ (hasta < i) → ubicar s' pid (pos i) ≡ ubicar s pid (pos i)
  pub resto : calcular_size_pid s' pid + hasta ≡ calcular_size_pid s pid + n
  pub otros : (q g : ℤ) → q ≢ minus_one → q ≢ pid → ubicar s' q g ≡ ubicar s q g
  pub datos :
      (s'.bytes ≡ s.bytes)
      × (s'.cache ≡ s.cache)
      × (s'.entradas_x_proc ≡ s.entradas_x_proc)
      × (s'.proc_activos ≡ s.proc_activos)

-- One page: `n` is gone, later ones are where they were.
sigue :
    {s s₁ s' : Memoria} (pid : ℤ) (n : ℕ)
    → pid ≢ minus_one
    → ubicar s pid (pos n) ≢ none
    → Liberada s pid (pos n) s₁
    → Eliminado s₁ pid (suc n) s'
    → Eliminado s pid n s'
sigue {s} {s₁} {s'} pid n np esta l r = record {
  hasta = r.hasta;
  avanza = omega (arith, r.avanza);
  estaban = λ i lo hi. elim (ℕ_discrete i n) [
    | yes e ↦ λ h. esta (rw e at h)
    | no ne ↦ λ h. r.estaban i (omega arith) hi (mantiene i (λ e. ne (sym e)) ∙ h)
  ];
  falta = sym (mantiene r.hasta (omega (arith, r.avanza))) ∙ r.falta;
  perdidas = λ i lo hi. elim (ℕ_discrete i n) [
    | yes e ↦ rw e (r.quedan n (inl (omega arith)) ∙ l.perdida)
    | no ne ↦ r.perdidas i (omega arith) hi
  ];
  quedan = λ i h.
      r.quedan i (elim h [ inl a ↦ inl (omega arith) | inr b ↦ inr b ])
      ∙ mantiene i (elim h [ inl a ↦ omega arith | inr b ↦ omega (arith, r.avanza) ]);
  resto = omega (arith, r.resto, l.del_pid);
  otros = λ q g nq o. r.otros q g nq o ∙ l.otras q g nq (inl (λ e. o (sym e)));
  datos =
      (r.datos.0 ∙ l.datos.0, r.datos.1 ∙ l.datos.1, r.datos.2 ∙ l.datos.2, r.datos.3 ∙ l.datos.3);
}
  where
    mantiene : (i : ℕ) → n ≢ i → ubicar s₁ pid (pos i) ≡ ubicar s pid (pos i)
    mantiene i h = l.otras pid (pos i) np (inr (λ e. h (pos_inj e)))

-- With more fuel than the process has frames the loop ends, at the first page that is not there.
eliminar_desde_lem :
    (fuel : ℕ) {s : Memoria} (pid : ℤ) (n : ℕ)
    → IsValid s
    → pid ≢ minus_one
    → calcular_size_pid s pid < fuel
    → (s' : Memoria) × (eliminar_desde fuel s pid n ≡ some s') × Eliminado s pid n s' × IsValid s'
unfolding eliminar_desde
eliminar_desde_lem zero pid n v np h = elim h [ ]
eliminar_desde_lem (suc fuel) {s} pid n v np h = elim (liberar_pagina_lem pid (pos n) v np) [
  | inl (falta, e) ↦ (
    s,
    rw e,
    record {
      hasta = n;
      avanza = omega arith;
      estaban = λ i lo hi. absurd (omega arith);
      falta = falta;
      perdidas = λ i lo hi. let e : i ≡ n = omega arith in rw e falta;
      quedan = λ i x. refl;
      resto = refl;
      otros = λ q g nq o. refl;
      datos = (refl, refl, refl, refl);
    },
    v,
  )
  | inr (esta, (s₁, e, l, v₁)) ↦
      let (s', e', r, v') = eliminar_desde_lem fuel pid (suc n) v₁ np (omega (arith, l.del_pid)) in
      (s', rw e (ap (eliminar_desde fuel s₁ pid) (omega arith) ∙ e'), sigue pid n np esta l r, v')
]

module _ ⦃commons : Commons ℤ⦄ where
  -- The state in which the loop of `finalizarProceso` begins.
  abbrev pub sin_rastro : Memoria → ℤ → Memoria
  sin_rastro s pid = record s {
    cache = if cache_activada s.cache then eliminar_proceso_en_cache pid s.cache else s.cache;
    proc_activos = eliminar_proceso_de_activos s.proc_activos pid;
  }

  sin_rastro-IsValid : {s : Memoria} (pid : ℤ) → IsValid s → IsValid (sin_rastro s pid)
  sin_rastro-IsValid pid v = record {
    size = v.size;
    lugar = v.lugar;
    area = v.area;
    adm = v.adm;
    ocupados = v.ocupados;
    numerados = v.numerados;
    unicas = v.unicas;
  }

  -- On a valid state `finalizarProceso` ends and succeeds: it frees the pages of the process from 0 up to
  -- the first number that the process does not hold, leaves the pages above that gap and every other
  -- process's pages where they were, and keeps the invariant.
  pub finalizar_proceso_lem :
      {s : Memoria} (pid : ℤ)
      → IsValid s
      → pid ≢ minus_one
      → (s' : Memoria) × (finalizar_proceso s pid ≡ some (s', exit_success))
        × Eliminado (sin_rastro s pid) pid 0 s'
        × IsValid s'
  unfolding finalizar_proceso eliminar_proceso_en_memoria
  finalizar_proceso_lem {s} pid v np =
      let (s', e, r, v') =
        eliminar_desde_lem (length s.tabla + 1) pid 0 (sin_rastro-IsValid pid v) np
          (calcular_size_pid-lt (sin_rastro s pid) pid) in
      (s', rw e, r, v')

  -- Where the pages that a process holds are numbered 0, 1, … with no gap, `finalizarProceso` leaves it
  -- no frame.
  pub finalizar_proceso-size_pid :
      {s : Memoria} (pid : ℤ)
      → IsValid s
      → pid ≢ minus_one
      → ((i : ℕ) → i < calcular_size_pid s pid → ubicar s pid (pos i) ≢ none)
      → (s' : Memoria) × (finalizar_proceso s pid ≡ some (s', exit_success))
        × (calcular_size_pid s' pid ≡ 0)
  unfolding calcular_size_pid
  finalizar_proceso-size_pid {s} pid v np todas =
      let (s', e, r, v') = finalizar_proceso_lem pid v np in
      (
        s',
        e,
        elim (dec_lt r.hasta (calcular_size_pid s pid)) [
          | yes h ↦ absurd (todas r.hasta h r.falta)
          | no h ↦ omega (arith, r.resto)
        ],
      )
