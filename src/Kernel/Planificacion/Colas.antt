-- ===== src/Kernel/Planificacion/Colas.antt =====
-- How often a process stands in the lists of src/kernel/kernel.c.
use tp_sisop_1c_2017_david.Prelude.{
  ℕ, zero, suc, ◌+◌, ◌*◌, ℤ, eqb_ℤ, eqb_ℤ_iff, if◌then◌else◌, Bool-cases, ◌≡◌, refl, sym, ap, ◌∙◌,
  Option-cases, none, some, List, [], ◌∷◌, ◌++◌, length, sin_indice, get_elem?, inl, inr, arith,
}
use tp_sisop_1c_2017_david.Kernel.Planificacion.{
  Kernel, Cola, nuevos, listos, ejecutando, bloqueados, terminados, cola, con_cola, indice,
  siguiente,
}

abbrev pub uno : ℤ → ℤ → ℕ
uno q p = if eqb_ℤ p q then 1 else 0

abbrev pub cuenta : ℤ → List ℤ → ℕ
cuenta q [] = 0
cuenta q (p ∷ ps) = uno q p + cuenta q ps

module _ {σ φ : Type 0} where
  -- How often a process stands in the five lists.
  abbrev pub cuenta_total : ℤ → Kernel σ φ → ℕ
  cuenta_total q s =
      cuenta q s.new + cuenta q s.ready + cuenta q s.exec + cuenta q s.blocked + cuenta q s.exit

  -- How many processes have been admitted and have not ended.
  abbrev pub admitidos : Kernel σ φ → ℕ
  admitidos s = length s.ready + length s.exec + length s.blocked

  pub cuenta_total-con_cola :
      (q : ℤ) (c : Cola) (l : List ℤ) (s : Kernel σ φ)
      → cuenta_total q (con_cola c l s) + cuenta q (cola c s) ≡ cuenta_total q s + cuenta q l
  cuenta_total-con_cola q nuevos l s = omega arith
  cuenta_total-con_cola q listos l s = omega arith
  cuenta_total-con_cola q ejecutando l s = omega arith
  cuenta_total-con_cola q bloqueados l s = omega arith
  cuenta_total-con_cola q terminados l s = omega arith

-- Whether the processes of a list count as admitted.
abbrev pub peso : Cola → ℕ
peso nuevos = 0
peso listos = 1
peso ejecutando = 1
peso bloqueados = 1
peso terminados = 0

pub admitidos-con_cola :
    {σ φ : Type 0} (c : Cola) (l : List ℤ) (s : Kernel σ φ)
    → admitidos (con_cola c l s) + peso c * length (cola c s) ≡ admitidos s + peso c * length l
admitidos-con_cola nuevos l s = omega arith
admitidos-con_cola listos l s = omega arith
admitidos-con_cola ejecutando l s = omega arith
admitidos-con_cola bloqueados l s = omega arith
admitidos-con_cola terminados l s = omega arith

pub cuenta-append : (q : ℤ) (xs ys : List ℤ) → cuenta q (xs ++ ys) ≡ cuenta q xs + cuenta q ys
cuenta-append q [] ys = omega arith
cuenta-append q (x ∷ xs) ys = omega (arith, cuenta-append q xs ys)

pub cuenta-sin_indice :
    (q : ℤ) (xs : List ℤ) (i : ℕ) (p : ℤ)
    → get_elem? xs i ≡ some p
    → (cuenta q xs ≡ uno q p + cuenta q (sin_indice xs i))
      × (length xs ≡ suc (length (sin_indice xs i)))
cuenta-sin_indice q [] i p e = cc
cuenta-sin_indice q (x ∷ xs) zero p e =
    let mismo : x ≡ p = cc in (ap (λ y. uno q y + cuenta q xs) mismo, refl)
cuenta-sin_indice q (x ∷ xs) (suc i) p e =
    let r = cuenta-sin_indice q xs i p e in (omega (arith, r.0), omega (arith, r.1))

-- The index that the search returns is one of the process.
pub indice-get :
    (pid : ℤ) (i : ℕ) (xs : List ℤ) → indice pid xs ≡ some i → get_elem? xs i ≡ some pid
unfolding indice
indice-get pid i [] e = cc
indice-get pid i (x ∷ xs) e = elim (Bool-cases (eqb_ℤ x pid)) [
  | inl h ↦
      let abre : indice pid (x ∷ xs) ≡ some 0 = rw (indice, h) refl in
      let cero : 0 ≡ i = cc in ap (get_elem? (x ∷ xs)) (sym cero) ∙ ap some ((eqb_ℤ_iff x pid).0 h)
  | inr h ↦
      let abre : indice pid (x ∷ xs) ≡ siguiente (indice pid xs) = rw (indice, h) refl in
      elim (Option-cases (indice pid xs)) [
        | inl n ↦ let nada : indice pid (x ∷ xs) ≡ none = abre ∙ ap siguiente n in cc
        | inr (j, q) ↦
            let algo : indice pid (x ∷ xs) ≡ some (suc j) = abre ∙ ap siguiente q in
            let mismo : suc j ≡ i = cc in
            ap (get_elem? (x ∷ xs)) (sym mismo) ∙ indice-get pid j xs q
      ]
]
