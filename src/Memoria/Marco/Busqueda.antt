-- ===== src/Memoria/Marco/Busqueda.antt =====
-- Searching and counting in the page table, and what one changed entry does to both.
use tp_sisop_1c_2017_david.Prelude.{
  ℕ, zero, suc, ◌+◌, ◌≤◌, ◌<◌, ◌≡◌, refl, ap, Bool, true, false, Bool-cases, inl, inr,
  if◌then◌else◌, none, some, List, [], ◌∷◌, ◌++◌, length, get_or, set, take, drop, arith,
}
use tp_sisop_1c_2017_david.Memoria.Marco.{
  Marco, buscar_desde, contar, marco_adm, marco_libre, marcos_adm, marcos_libres,
}

abbrev pub bit : Bool → ℕ
bit b = if b then 1 else 0

module _ (test : Marco → Bool) where
  -- The first entry that passes: `none` exactly when none does.
  pub buscar-none_of_contar :
      (i : ℕ) (ms : List Marco) → contar test ms ≡ 0 → buscar_desde test i ms ≡ none
  unfolding buscar_desde contar
  buscar-none_of_contar i [] h = refl
  buscar-none_of_contar i (m ∷ ms) h = ground (arith, buscar-none_of_contar (i + 1) ms)

  pub contar_of_buscar-none :
      (i : ℕ) (ms : List Marco) → buscar_desde test i ms ≡ none → contar test ms ≡ 0
  unfolding buscar_desde contar
  contar_of_buscar-none i [] h = refl
  contar_of_buscar-none i (m ∷ ms) h = ground (arith, contar_of_buscar-none (i + 1) ms)

  -- What is found lies in the table and passes.
  pub buscar-some :
      (d : Marco) (i k : ℕ) (ms : List Marco)
      → buscar_desde test i ms ≡ some k
      → (j : ℕ) × (k ≡ i + j) × (j < length ms) × (test (get_or ms j d) ≡ true)
  unfolding buscar_desde
  buscar-some d i k [] h = absurd (ground arith)
  buscar-some d i k (m ∷ ms) h = elim (Bool-cases (test m)) [
    | inl e ↦ (0, ground arith, omega arith, e)
    | inr e ↦
        let (j, ek, l, t) = buscar-some d (i + 1) k ms (ground arith) in
        (suc j, omega arith, omega arith, t)
  ]

  -- No entry before it passes.
  pub buscar-first :
      (d : Marco) (i j k : ℕ) (ms : List Marco)
      → buscar_desde test i ms ≡ some k
      → i + j < k
      → test (get_or ms j d) ≡ false
  unfolding buscar_desde
  buscar-first d i j k [] h l = ground arith
  buscar-first d i zero k (m ∷ ms) h l = ground arith
  buscar-first d i (suc j) k (m ∷ ms) h l = ground (arith, buscar-first d (i + 1) j k ms)

  -- A change between two entries that fail the test changes no search.
  pub buscar-set_other :
      (d v : Marco) (i k : ℕ) (ms : List Marco)
      → test (get_or ms k d) ≡ false
      → test v ≡ false
      → buscar_desde test i (set ms k v) ≡ buscar_desde test i ms
  unfolding buscar_desde
  buscar-set_other d v i k [] h hv = refl
  buscar-set_other d v i zero (m ∷ ms) h hv = ground arith
  buscar-set_other d v i (suc k) (m ∷ ms) h hv =
      ground (arith, buscar-set_other d v (i + 1) k ms h hv)

  -- Where nothing passed, the search finds the entry that is made to pass.
  pub buscar-set_new :
      (v : Marco) (i k : ℕ) (ms : List Marco)
      → buscar_desde test i ms ≡ none
      → test v ≡ true
      → k < length ms
      → buscar_desde test i (set ms k v) ≡ some (i + k)
  unfolding buscar_desde
  buscar-set_new v i k [] h hv l = absurd (omega arith)
  buscar-set_new v i zero (m ∷ ms) h hv l = ground arith
  buscar-set_new v i (suc k) (m ∷ ms) h hv l = ground (arith, buscar-set_new v (i + 1) k ms)

  pub contar-set :
      (d v : Marco) (k : ℕ) (ms : List Marco)
      → k < length ms
      → contar test (set ms k v) + bit (test (get_or ms k d)) ≡ contar test ms + bit (test v)
  unfolding contar
  contar-set d v k [] l = absurd (omega arith)
  contar-set d v zero (m ∷ ms) l = ground arith
  contar-set d v (suc k) (m ∷ ms) l = ground (arith, contar-set d v k ms)

  -- The same in the first entries alone.
  pub contar-take-set :
      (d v : Marco) (c k : ℕ) (ms : List Marco)
      → k < c
      → k < length ms
      → contar test (take c (set ms k v)) + bit (test (get_or ms k d))
        ≡ contar test (take c ms) + bit (test v)
  unfolding contar
  contar-take-set d v c k [] h l = absurd (omega arith)
  contar-take-set d v zero k (m ∷ ms) h l = absurd (omega arith)
  contar-take-set d v (suc c) zero (m ∷ ms) h l = ground arith
  contar-take-set d v (suc c) (suc k) (m ∷ ms) h l =
      ground (arith, contar-take-set d v c k ms (omega arith) (omega arith))

  -- What passes among the first entries is found among them.
  pub buscar-take :
      (c i k : ℕ) (ms : List Marco)
      → buscar_desde test i ms ≡ some k
      → 0 < contar test (take c ms)
      → k < i + c
  unfolding buscar_desde contar
  buscar-take zero i k ms e h = absurd (omega arith)
  buscar-take (suc c) i k [] e h = absurd (omega arith)
  buscar-take (suc c) i k (m ∷ ms) e h = elim (Bool-cases (test m)) [
    | inl t ↦ ground arith
    | inr t ↦ let r = buscar-take c (i + 1) k ms (ground arith) (ground arith) in omega arith
  ]

  pub contar-append :
      (xs ys : List Marco) → contar test (xs ++ ys) ≡ contar test xs + contar test ys
  unfolding contar
  contar-append [] ys = omega arith
  contar-append (x ∷ xs) ys = ground (arith, contar-append xs ys)

  pub contar-le-length : (ms : List Marco) → contar test ms ≤ length ms
  unfolding contar
  contar-le-length [] = omega arith
  contar-le-length (m ∷ ms) = ground (arith, contar-le-length ms)

  -- A search passes over a part of the table in which nothing passes.
  pub buscar-append :
      (i j : ℕ) (xs ys : List Marco)
      → contar test xs ≡ 0
      → j ≡ i + length xs
      → buscar_desde test i (xs ++ ys) ≡ buscar_desde test j ys
  unfolding buscar_desde contar
  buscar-append i j [] ys h e = ap (λ k. buscar_desde test k ys) (omega arith)
  buscar-append i j (x ∷ xs) ys h e = ground (arith, buscar-append (i + 1) j xs ys)

pub drop-set :
    (b i k : ℕ) (v : Marco) (ms : List Marco)
    → k ≡ b + i
    → drop b (set ms k v) ≡ set (drop b ms) i v
drop-set zero i k v ms e = ap (λ j. set ms j v) (omega arith)
drop-set (suc b) i k v [] e = refl
drop-set (suc b) i zero v (m ∷ ms) e = absurd (omega arith)
drop-set (suc b) i (suc k) v (m ∷ ms) e = drop-set b i k v ms (omega arith)

pub take-set : (b k : ℕ) (v : Marco) (ms : List Marco) → b ≤ k → take b (set ms k v) ≡ take b ms
take-set zero k v ms h = refl
take-set (suc b) k v [] h = refl
take-set (suc b) zero v (m ∷ ms) h = absurd (omega arith)
take-set (suc b) (suc k) v (m ∷ ms) h = ap (λ l. m ∷ l) (take-set b k v ms (omega arith))

-- The administrative entries are neither free nor any process's.
pub contar_adm :
    (test : Marco → Bool) (i n : ℕ)
    → ((j : ℕ) → test (marco_adm j) ≡ false)
    → contar test (marcos_adm i n) ≡ 0
unfolding contar
contar_adm test i zero h = refl
contar_adm test i (suc n) h = rw (h i) (contar_adm test (i + 1) n h)

pub contar_adm_todos :
    (test : Marco → Bool) (i n : ℕ)
    → ((j : ℕ) → test (marco_adm j) ≡ true)
    → contar test (marcos_adm i n) ≡ n
unfolding contar
contar_adm_todos test i zero h = refl
contar_adm_todos test i (suc n) h = rw (h i) (ap suc (contar_adm_todos test (i + 1) n h))

pub contar_libres :
    (test : Marco → Bool) (i n : ℕ)
    → ((j : ℕ) → test (marco_libre j) ≡ false)
    → contar test (marcos_libres i n) ≡ 0
unfolding contar
contar_libres test i zero h = refl
contar_libres test i (suc n) h = rw (h i) (contar_libres test (i + 1) n h)
