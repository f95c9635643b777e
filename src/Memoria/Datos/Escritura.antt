-- ===== src/Memoria/Datos/Escritura.antt =====
-- One `memcpy` into a frame's block of src/memoria/memoria.c.
use tp_sisop_1c_2017_david.Prelude.{
  ℕ, ◌+◌, ◌-◌, ◌*◌, ◌≤◌, ◌<◌, ℤ, ◌≡◌, refl, ◌∙◌, ◌≢◌, ◌⊎◌, inl, inr, some, List, length, leer_bytes,
  escribir_bytes-total, length-escribir_bytes, leer-escribir_self, leer-escribir_disjoint,
  bloque_dentro, bloques_disjuntos, arith,
}
use tp_sisop_1c_2017_david.Memoria.Estado.{Memoria}
use tp_sisop_1c_2017_david.Memoria.Paginas.Invariante.{IsValid, ubicar}
use tp_sisop_1c_2017_david.Memoria.Paginas.Guardar.{contenido}
use tp_sisop_1c_2017_david.Memoria.Datos.{escribir_en}
use tp_sisop_1c_2017_david.Memoria.Datos.Coherencia.{Coherente, SoloCache}

-- What the copy of `xs` to an offset of block `k` leaves.
pub record Escrita (s : Memoria) (k offset : ℕ) (xs : List ℕ) (s' : Memoria) : Type 0 where
  pub lectura :
      (n : ℕ) → n ≡ length xs → leer_bytes (k * s'.marco_size + offset) n s'.bytes ≡ some xs
  pub fuera :
      (a n : ℕ)
      → (a + n ≤ k * s.marco_size + offset) ⊎ (k * s.marco_size + offset + length xs ≤ a)
      → leer_bytes a n s'.bytes ≡ leer_bytes a n s.bytes
  pub ubicadas : (q g : ℤ) → ubicar s' q g ≡ ubicar s q g
  pub medidas :
      (s'.marcos ≡ s.marcos) × (s'.marco_size ≡ s.marco_size) × (s'.bloques_adm ≡ s.bloques_adm)
  pub coherente : Coherente s'

pub escribir_en-Escrita :
    {s : Memoria} (k offset : ℕ) (xs : List ℕ)
    → Coherente s
    → k * s.marco_size + offset + length xs ≤ length s.bytes
    → (s' : Memoria) × (escribir_en s k offset xs ≡ some s') × Escrita s k offset xs s'
unfolding escribir_en
escribir_en-Escrita {s} k offset xs c h =
    let (mem, e) = escribir_bytes-total (k * s.marco_size + offset) xs s.bytes h in
    let (dentro, mismo) = length-escribir_bytes (k * s.marco_size + offset) xs s.bytes e in
    let v = c.valida in
    (
      record s { bytes = mem },
      rw e,
      record {
        lectura = λ n en. leer-escribir_self (k * s.marco_size + offset) n xs s.bytes en e;
        fuera = λ a n d. leer-escribir_disjoint (k * s.marco_size + offset) a n xs s.bytes d e;
        ubicadas = λ q g. refl;
        medidas = (refl, refl, refl);
        coherente = record {
          valida = record {
            size = v.size;
            lugar = v.lugar;
            area = mismo ∙ v.area;
            adm = v.adm;
            ocupados = v.ocupados;
            numerados = v.numerados;
            unicas = v.unicas;
          };
          en_su_marco = c.en_su_marco;
          limite = c.limite;
          positivo = c.positivo;
        };
      },
    )

-- A block that lies inside the allocation, and an offset inside it.
pub dentro_del_bloque :
    {s : Memoria} (k m : ℕ)
    → IsValid s
    → k + s.bloques_adm < s.marcos
    → m ≤ s.marco_size
    → k * s.marco_size + m ≤ length s.bytes
dentro_del_bloque {s} k m v l h =
    omega (arith, v.area, bloque_dentro k (s.marcos - s.bloques_adm) s.marco_size (omega arith))

-- A copy that ends in its block changes no other block.
pub Escrita-contenido :
    {s s' : Memoria} (k offset : ℕ) (xs : List ℕ)
    → Escrita s k offset xs s'
    → offset + length xs ≤ s.marco_size
    → (j : ℕ) → j ≢ k
    → contenido s' j ≡ contenido s j
Escrita-contenido {s} {s'} k offset xs w h j n = rw (w.medidas.1) (
    w.fuera (j * s.marco_size) s.marco_size (elim (bloques_disjuntos j k s.marco_size n) [
      | inl x ↦ inr (omega arith)
      | inr x ↦ inl (omega arith)
    ]))

pub SoloCache-ubicar : {s s' : Memoria} (q g : ℤ) → SoloCache s s' → ubicar s' q g ≡ ubicar s q g
SoloCache-ubicar q g c = rw (c.tabla, c.medidas.2)
