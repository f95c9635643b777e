-- ===== src/Kernel/Archivos/Entradas.antt =====
-- The entries of the global table of files of src/kernel/kernel.c under writes through their pointers.
use tp_sisop_1c_2017_david.Prelude.{
  ℕ, ◌+◌, ◌%◌, ◌^◌, ◌<◌, Bool, true, false, ◌==◌, Bool-cases, inl, inr, ◌≡◌, refl, sym, ap, ◌∙◌,
  All, some, List, [], ◌∷◌, ◌++◌, primero, sin_primero, arith,
}
use tp_sisop_1c_2017_david.Kernel.Planificacion.{Abierto, Pcb, restar_uno}
use tp_sisop_1c_2017_david.Kernel.Archivos.{
  Global, global_de, con_global, abrir_uno, cerrar_uno, es_arch_buscado_global,
}

-- The entries are open, fewer than 2 ^ 32 - 1 times, and have numbers below the next one.
abbrev pub EsTabla : ℕ → List Global → Type 0
EsTabla n = All (λ g. (0 < g.count_open) × (g.count_open + 1 < 2 ^ 32) × (g.ident < n))

-- The descriptors of a process are below its next one.
abbrev pub EsTablaDePcb : ℕ → List Abierto → Type 0
EsTablaDePcb n = All (λ x. x.file_descriptor < n)

pub cerrar-abrir_uno : (g : Global) → g.count_open + 1 < 2 ^ 32 → cerrar_uno (abrir_uno g) ≡ g
cerrar-abrir_uno g h = ap (λ n. record g { count_open = n }) vuelve
  where
    vuelve : restar_uno ((g.count_open + 1) % 2 ^ 32) ≡ g.count_open
    vuelve = omega arith

pub con_global-primero :
    (f : Global → Global) (n : ℕ) (g : Global) (gs : List Global)
    → (g.ident == n) ≡ true
    → con_global f n (g ∷ gs) ≡ f g ∷ gs
unfolding con_global
con_global-primero f n g gs e = rw (con_global, e) refl

pub con_global-resto :
    (f : Global → Global) (n : ℕ) (g : Global) (gs : List Global)
    → (g.ident == n) ≡ false
    → con_global f n (g ∷ gs) ≡ g ∷ con_global f n gs
unfolding con_global
con_global-resto f n g gs e = rw (con_global, e) refl

-- A file that some entry has: its entry is written through the same pointer.
pub con_global-vuelve :
    (k n : ℕ) (gs : List Global)
    → EsTabla k gs
    → con_global cerrar_uno n (con_global abrir_uno n gs) ≡ gs
unfolding con_global
con_global-vuelve k n [] a = refl
con_global-vuelve k n (g ∷ gs) a = elim (Bool-cases (g.ident == n)) [
  | inl e ↦
      ap (con_global cerrar_uno n) (con_global-primero abrir_uno n g gs e)
      ∙ con_global-primero cerrar_uno n (abrir_uno g) gs e
      ∙ ap (λ h. h ∷ gs) (cerrar-abrir_uno g a.0.1)
  | inr e ↦
      ap (con_global cerrar_uno n) (con_global-resto abrir_uno n g gs e)
      ∙ con_global-resto cerrar_uno n g (con_global abrir_uno n gs) e
      ∙ ap (λ l. g ∷ l) (con_global-vuelve k n gs a.1)
]

-- A new entry, behind the others.
pub con_global-nuevo :
    (k : ℕ) (f : Global → Global) (g : Global) (gs : List Global)
    → EsTabla k gs
    → g.ident ≡ k
    → con_global f k (gs ++ (g ∷ [])) ≡ gs ++ (f g ∷ [])
unfolding con_global
con_global-nuevo k f g [] a e =
    let mismo : (g.ident == k) ≡ true = ground (arith, e) in rw (con_global, mismo) refl
con_global-nuevo k f g (h ∷ gs) a e =
    let otro : (h.ident == k) ≡ false = ground (arith, a.0.2) in
    rw (con_global, otro) (ap (λ l. h ∷ l) (con_global-nuevo k f g gs a.1 e))

pub global_de-nuevo :
    (k : ℕ) (g : Global) (gs : List Global)
    → EsTabla k gs
    → g.ident ≡ k
    → global_de k (gs ++ (g ∷ [])) ≡ some g
unfolding global_de
global_de-nuevo k g [] a e =
    let mismo : (g.ident == k) ≡ true = ground (arith, e) in rw (global_de, mismo) refl
global_de-nuevo k g (h ∷ gs) a e =
    let otro : (h.ident == k) ≡ false = ground (arith, a.0.2) in
    rw (global_de, otro) (global_de-nuevo k g gs a.1 e)

-- The search for the first element with a property, where none of those before the last one has it.
pub sin_primero-nadie {ℓ} :
    {A : Type ℓ} (p : A → Bool) (x : A) (xs : List A)
    → All (λ y. p y ≡ false) xs
    → p x ≡ false
    → sin_primero p (xs ++ (x ∷ [])) ≡ xs ++ (x ∷ [])
sin_primero-nadie p x [] a e = rw (e) refl
sin_primero-nadie p x (y ∷ ys) a e = rw (a.0) (ap (λ l. y ∷ l) (sin_primero-nadie p x ys a.1 e))

pub primero-nuevo {ℓ} :
    {A : Type ℓ} (p : A → Bool) (x : A) (xs : List A)
    → All (λ y. p y ≡ false) xs
    → p x ≡ true
    → (primero p (xs ++ (x ∷ [])) ≡ some x) × (sin_primero p (xs ++ (x ∷ [])) ≡ xs)
primero-nuevo p x [] a e = rw (e) (refl, refl)
primero-nuevo p x (y ∷ ys) a e =
    let r = primero-nuevo p x ys a.1 e in rw (a.0) (r.0, ap (λ l. y ∷ l) r.1)

-- The entry that a write through the pointer to an entry left.
pub record Escrito (k n : ℕ) (gs : List Global) : Type 0 where
  pub entrada : Global
  pub abierta : (0 < entrada.count_open) × (entrada.count_open + 1 < 2 ^ 32)
  pub leida : global_de n (con_global abrir_uno n gs) ≡ some (abrir_uno entrada)

pub con_global-Escrito :
    (k : ℕ) (p : Pcb) (g : Global) (gs : List Global)
    → EsTabla k gs
    → primero (es_arch_buscado_global p) gs ≡ some g
    → Escrito k g.ident gs
unfolding con_global global_de
con_global-Escrito k p g [] a e = cc
con_global-Escrito k p g (h ∷ gs) a e = elim (Bool-cases (h.ident == g.ident)) [
  | inl i ↦ record {
    entrada = h;
    abierta = (a.0.0, a.0.1);
    leida =
        ap (global_de g.ident) (con_global-primero abrir_uno g.ident h gs i)
        ∙ de_primero (abrir_uno h) gs i;
  }
  | inr i ↦ elim (Bool-cases (es_arch_buscado_global p h)) [
    | inl j ↦
        let algo : primero (es_arch_buscado_global p) (h ∷ gs) ≡ some h = rw (j) refl in
        let mismo : h ≡ g = cc in
        let identidad : h.ident ≡ g.ident = ap (λ x. x.ident) mismo in
        absurd (ground (arith, identidad, i))
    | inr j ↦
        let resto : primero (es_arch_buscado_global p) (h ∷ gs)
            ≡ primero (es_arch_buscado_global p) gs =
          rw (j) refl in
        let r = con_global-Escrito k p g gs a.1 (sym resto ∙ e) in
        record {
          entrada = r.entrada;
          abierta = r.abierta;
          leida = rw (con_global, i, global_de, i) r.leida;
        }
  ]
]
  where
    de_primero :
        (x : Global) (xs : List Global)
        → (x.ident == g.ident) ≡ true
        → global_de g.ident (x ∷ xs) ≡ some x
    de_primero x xs q = rw (global_de, q) refl
