-- ===== src/Emitter/Bytes.antt =====
-- The bytes of one instruction, decoded.
use hyperion_euntime_environ.Base.{
  ℕ, zero, suc, ◌+◌, ◌*◌, ◌/◌, ◌%◌, ◌^◌, ◌<◌, ◌≡◌, refl, ap, ◌∙◌, bit_or, Option, none, some, [],
  ◌∷◌, arith,
}
use hyperion_euntime_environ.Base.Bits.{bit_or-cut, bit_or-zero, zero-bit_or}
use native.Mathlib.Nat.{pow-suc}
use hyperion_euntime_environ.Emitter.{aarch64, Reg, r0, r1, r2, r3, r4, r5, r6, r7, index, bytes_of}
use hyperion_euntime_environ.Emitter.Decode.{
  Instr, mov_imm, mov_keep, number, decode, decode_from, prepend, decode_word,
}

pub index_lt : (r : Reg) → index r < 8
index_lt r0 = omega arith
index_lt r1 = omega arith
index_lt r2 = omega arith
index_lt r3 = omega arith
index_lt r4 = omega arith
index_lt r5 = omega arith
index_lt r6 = omega arith
index_lt r7 = omega arith

pub number-bytes_of : (size n : ℕ) → n < 256 ^ size → number (bytes_of size n) ≡ n
number-bytes_of zero n h = omega arith
number-bytes_of (suc size) n h =
    let later = number-bytes_of size (n / 256) (omega (arith, h, pow-suc 256 size)) in
    omega (arith, later)

decode_four :
    (b0 b1 b2 b3 : ℕ) (i : Instr)
    → decode_word (number (b0 ∷ b1 ∷ b2 ∷ b3 ∷ [])) ≡ some i
    → decode aarch64 (b0 ∷ b1 ∷ b2 ∷ b3 ∷ []) ≡ some (i ∷ [])
decode_four b0 b1 b2 b3 i e =
    ap
      (λ (o : Option Instr). elim o [
        | none ↦ decode_from aarch64 (b0 ∷ b1 ∷ b2 ∷ b3 ∷ []) []
        | some j ↦ prepend (j ∷ []) (decode_from aarch64 [] [])
      ])
      e

-- ARM64: one word.
pub decode-word :
    (w : ℕ) (i : Instr)
    → w < 2 ^ 32
    → decode_word w ≡ some i
    → decode aarch64 (bytes_of 4 w) ≡ some (i ∷ [])
decode-word w i small e =
    decode_four (w % 256) (w / 256 % 256) (w / 256 / 256 % 256) (w / 256 / 256 / 256 % 256) i
      (ap decode_word (number-bytes_of 4 w (omega (arith, small))) ∙ e)

module _ (reg imm block : ℕ) (hr : reg < 8) (hi : imm < 2 ^ 16) (hb : block < 4) where
  -- The fields of a move do not overlap.
  pub move_word :
      (op : ℕ)
      → bit_or (bit_or (bit_or (op * 2 ^ 23) (block * 2 ^ 21)) (imm * 2 ^ 5)) reg
        ≡ ((op * 2 ^ 2 + block) * 2 ^ 16 + imm) * 2 ^ 5 + reg
  move_word op = ground (
    arith,
    bit_or-cut 21 (op * 2 ^ 2) 0 block 0,
    bit_or-cut 2 op 0 0 block,
    bit_or-zero op,
    zero-bit_or block,
    bit_or-cut 21 (op * 2 ^ 2 + block) 0 0 (imm * 2 ^ 5),
    bit_or-zero (op * 2 ^ 2 + block),
    zero-bit_or (imm * 2 ^ 5),
    bit_or-cut 5 ((op * 2 ^ 2 + block) * 2 ^ 16 + imm) 0 0 reg,
    bit_or-zero ((op * 2 ^ 2 + block) * 2 ^ 16 + imm),
    zero-bit_or reg,
  )

  abbrev pub fields : ℕ → ℕ
  fields op = ((op * 2 ^ 2 + block) * 2 ^ 16 + imm) * 2 ^ 5 + reg

  is_op : (op : ℕ) → fields op / 2 ^ 23 ≡ op
  is_op op = omega arith

  reg_field : (op : ℕ) → fields op % 2 ^ 5 ≡ reg
  reg_field op = omega arith

  imm_field : (op : ℕ) → fields op / 2 ^ 5 % 2 ^ 16 ≡ imm
  imm_field op = omega arith

  block_field : (op : ℕ) → fields op / 2 ^ 21 % 4 ≡ block
  block_field op = omega arith

  pub decode_word-movz : decode_word (fields 0x1A5) ≡ some (mov_imm reg (imm * 2 ^ (16 * block)))
  decode_word-movz = rw (is_op 0x1A5, reg_field 0x1A5, imm_field 0x1A5, block_field 0x1A5) refl

  pub decode_word-movk : decode_word (fields 0x1E5) ≡ some (mov_keep reg imm block)
  decode_word-movk = rw (is_op 0x1E5, reg_field 0x1E5, imm_field 0x1E5, block_field 0x1E5) refl

module _ (d s : ℕ) (hd : d < 8) (hs : s < 8) where
  pub add_word :
      bit_or (bit_or (bit_or 0x8B000000 (s * 2 ^ 16)) (d * 2 ^ 5)) d
      ≡ ((0x458 * 2 ^ 5 + s) * 2 ^ 11 + d) * 2 ^ 5 + d
  add_word = ground (
    arith,
    bit_or-cut 21 0x458 0 0 (s * 2 ^ 16),
    zero-bit_or (s * 2 ^ 16),
    bit_or-zero 0x458,
    bit_or-cut 16 (0x458 * 2 ^ 5 + s) 0 0 (d * 2 ^ 5),
    bit_or-zero (0x458 * 2 ^ 5 + s),
    zero-bit_or (d * 2 ^ 5),
    bit_or-cut 5 ((0x458 * 2 ^ 5 + s) * 2 ^ 11 + d) 0 0 d,
    bit_or-zero ((0x458 * 2 ^ 5 + s) * 2 ^ 11 + d),
    zero-bit_or d,
  )

  pub modrm_byte : bit_or (bit_or 0xC0 (s * 2 ^ 3)) d % 256 ≡ (3 * 2 ^ 3 + s) * 2 ^ 3 + d
  modrm_byte = ground (
    arith,
    bit_or-cut 6 3 0 0 (s * 2 ^ 3),
    zero-bit_or (s * 2 ^ 3),
    bit_or-zero 3,
    bit_or-cut 3 (3 * 2 ^ 3 + s) 0 0 d,
    bit_or-zero (3 * 2 ^ 3 + s),
    zero-bit_or d,
  )
