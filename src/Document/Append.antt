-- ===== src/Document/Append.antt =====
-- The entry that `ProcessDocument` of src/core/ProcessingUnit.cpp writes, as one sequence of bytes.
use hyperion_euntime_environ.Base.{
  ℕ, zero, suc, ◌+◌, ◌/◌, ◌%◌, ◌<◌, ◌≡◌, refl, ap, sym, ◌∙◌, fun_ext, List, [], ◌∷◌, ◌++◌, map,
  length, length-map, length-set, get_or, set, arith, ℤ, pos, negsuc,
}
use hyperion_euntime_environ.MemoryManager.{Os, Manager, Outcome, done, crashed, ◌>>=◌}
use hyperion_euntime_environ.Tokenizer.{Counts}
use hyperion_euntime_environ.Document.{
  Arithmetic, byte_of, store_byte, store_bytes, four_bytes, int8_byte, vector_dim, vectorize,
  min_max, scale_of, quantize, quantize_loop, write_entry,
}
use hyperion_euntime_environ.Document.Bytes.{AllBytes}

byte_of_bound : (w k : ℕ) → byte_of w k < 256
unfolding byte_of
byte_of_bound w zero = omega arith
byte_of_bound w (suc k) = byte_of_bound (w / 256) k

int8_byte_bound : (z : ℤ) → int8_byte z < 256
int8_byte_bound (pos n) = omega arith
int8_byte_bound (negsuc n) = omega arith

AllBytes-append : (xs ys : List ℕ) → AllBytes xs → AllBytes ys → AllBytes (xs ++ ys)
AllBytes-append [] ys h l = l
AllBytes-append (x ∷ xs) ys h l = (h.0, AllBytes-append xs ys h.1 l)

four-AllBytes : (w : ℕ) → AllBytes (four_bytes w)
four-AllBytes w =
    (byte_of_bound w 0, (byte_of_bound w 1, (byte_of_bound w 2, (byte_of_bound w 3, tt))))

pub >>=_assoc {ℓ κ μ} :
    {A : Type ℓ} {B : Type κ} {C : Type μ} (o : Outcome A) (f : A → Outcome B) (g : B → Outcome C)
    → (o >>= f) >>= g ≡ o >>= (λ a. f a >>= g)
>>=_assoc (done a) f g = refl
>>=_assoc crashed f g = refl

store_bytes-append :
    (os : Os) (xs ys : List ℕ) (m : Manager) (addr : ℕ)
    → store_bytes os m addr (xs ++ ys)
      ≡ store_bytes os m addr xs >>= (λ m'. store_bytes os m' (addr + length xs) ys)
unfolding store_bytes
store_bytes-append os [] ys m addr = ap (λ (a : ℕ). store_bytes os m a ys) (omega arith)
store_bytes-append os (x ∷ xs) ys m addr =
    ap (λ (k : Manager → Outcome Manager). store_byte os m addr x >>= k)
      (fun_ext (λ m'.
        store_bytes-append os xs ys m' (suc addr)
        ∙ ap (λ (a : ℕ). store_bytes os m' (suc addr) xs >>= (λ n. store_bytes os n a ys))
            {x = suc addr + length xs} (omega arith)))
    ∙ sym (
        >>=_assoc (store_byte os m addr x) (λ m'. store_bytes os m' (suc addr) xs)
          (λ n. store_bytes os n (addr + suc (length xs)) ys))

module _ (f : Arithmetic) (os : Os) where
  open f use {Float, of_ℕ, bits}

  -- The 264 bytes of an entry: the scale, the bias, and the quantized values.
  abbrev pub quantized : Float → Float → List Float → List ℕ
  quantized min_val max_val vs = map (λ v. int8_byte (quantize f min_val max_val v)) vs

  abbrev entry_between : Float → Float → List Float → List ℕ
  entry_between min_val max_val vs =
      four_bytes (bits (scale_of f min_val max_val))
      ++ (four_bytes (bits min_val) ++ quantized min_val max_val vs)

  abbrev pub entry : List Float → List ℕ
  entry vs =
      let first = get_or vs 0 (of_ℕ 0) in
      let (min_val, max_val) = min_max f vs first first in entry_between min_val max_val vs

  quantize_loop-eq :
      (min_val max_val : Float) (vs : List Float) (m : Manager) (addr : ℕ)
      → quantize_loop f os min_val max_val vs m addr
        ≡ store_bytes os m addr (quantized min_val max_val vs)
  unfolding quantize_loop store_bytes
  quantize_loop-eq min_val max_val [] m addr = refl
  quantize_loop-eq min_val max_val (v ∷ vs) m addr =
      ap
        (λ (k : Manager → Outcome Manager).
          store_byte os m addr (int8_byte (quantize f min_val max_val v)) >>= k)
        (fun_ext (λ m'. quantize_loop-eq min_val max_val vs m' (suc addr)))

  pub write_entry-eq :
      (min_val max_val : Float) (vs : List Float) (m : Manager) (addr : ℕ)
      → write_entry f os min_val max_val vs m addr
        ≡ store_bytes os m addr (entry_between min_val max_val vs)
  unfolding write_entry
  write_entry-eq min_val max_val vs m addr =
      let scale = four_bytes (bits (scale_of f min_val max_val)) in
      let bias = four_bytes (bits min_val) in
      let rest = quantized min_val max_val vs in
      sym (
        store_bytes-append os scale (bias ++ rest) m addr
        ∙ ap (λ (k : Manager → Outcome Manager). store_bytes os m addr scale >>= k)
            (fun_ext (λ m1.
              store_bytes-append os bias rest m1 (addr + 4)
              ∙ ap (λ (k : Manager → Outcome Manager). store_bytes os m1 (addr + 4) bias >>= k)
                  (fun_ext (λ m2. sym (quantize_loop-eq min_val max_val vs m2 (addr + 4 + 4)))))))

  quantized-AllBytes :
      (min_val max_val : Float) (vs : List Float) → AllBytes (quantized min_val max_val vs)
  quantized-AllBytes min_val max_val [] = tt
  quantized-AllBytes min_val max_val (v ∷ vs) =
      (int8_byte_bound (quantize f min_val max_val v), quantized-AllBytes min_val max_val vs)

  pub entry_between-AllBytes :
      (min_val max_val : Float) (vs : List Float) → AllBytes (entry_between min_val max_val vs)
  entry_between-AllBytes min_val max_val vs =
      AllBytes-append (four_bytes (bits (scale_of f min_val max_val)))
        (four_bytes (bits min_val) ++ quantized min_val max_val vs) (four-AllBytes _)
        (AllBytes-append (four_bytes (bits min_val)) (quantized min_val max_val vs)
          (four-AllBytes _) (quantized-AllBytes min_val max_val vs))

  pub length-entry_between :
      (min_val max_val : Float) (vs : List Float)
      → length (entry_between min_val max_val vs) ≡ 8 + length vs
  length-entry_between min_val max_val vs =
      omega (arith, length-map (λ v. int8_byte (quantize f min_val max_val v)) vs)

  pub length-vectorize :
      (counts : Counts) (dense_vec : List Float)
      → length (vectorize f counts dense_vec) ≡ length dense_vec
  unfolding vectorize
  length-vectorize [] dense_vec = refl
  length-vectorize ((term_id, count) ∷ counts) dense_vec =
      length-vectorize counts (set dense_vec (term_id % vector_dim) _)
      ∙ length-set dense_vec (term_id % vector_dim) _
