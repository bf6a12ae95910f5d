-- ===== src/Emitter/Encode.antt =====
-- The code that each `emit_` function of include/core/JITEmitter.hpp appends, decoded.
use hyperion_euntime_environ.Base.{
  ℕ, ◌+◌, ◌*◌, ◌/◌, ◌%◌, ◌^◌, ◌<◌, ◌≡◌, refl, ap, ◌∙◌, Option, none, some, List, [], ◌∷◌, ◌++◌,
  append_assoc, arith,
}
use hyperion_euntime_environ.Emitter.{
  Arch, x86_64, aarch64, Reg, r0, r1, r2, r3, r4, r5, r6, r7, index, bytes_of, emit_arm_movz,
  emit_arm_movk, emit_mov_reg_imm64, emit_add_reg_reg, emit_ret,
}
use hyperion_euntime_environ.Emitter.Decode.{
  Instr, mov_imm, mov_keep, add_reg, ret, number, decode, decode_from, decode_word, complete_x86,
  decode_from-append, prepend,
}
use hyperion_euntime_environ.Emitter.Bytes.{
  index_lt, number-bytes_of, decode-word, move_word, fields, decode_word-movz, decode_word-movk,
  add_word, modrm_byte,
}

append_one :
    (arch : Arch) (code bytes : List ℕ) (is : List Instr) (i : Instr)
    → decode arch code ≡ some is
    → decode arch bytes ≡ some (i ∷ [])
    → decode arch (code ++ bytes) ≡ some (is ++ i ∷ [])
append_one arch code bytes is i whole one =
    decode_from-append arch [] code bytes is whole ∙ ap (prepend is) one

module _ (code : List ℕ) (is : List Instr) (reg : Reg) where
  pub decode-movz :
      (imm block : ℕ)
      → decode aarch64 code ≡ some is
      → imm < 2 ^ 16
      → block < 4
      → decode aarch64 (emit_arm_movz code reg imm block)
        ≡ some (is ++ mov_imm (index reg) (imm * 2 ^ (16 * block)) ∷ [])
  unfolding emit_arm_movz
  decode-movz imm block whole hi hb =
      let e = move_word (index reg) imm block (index_lt reg) hi hb 0x1A5 in
      append_one aarch64 code _ is _ whole (
        ap (λ (w : ℕ). decode aarch64 (bytes_of 4 w)) e
        ∙ decode-word (fields (index reg) imm block (index_lt reg) hi hb 0x1A5) _
            (omega (arith, index_lt reg))
            (decode_word-movz (index reg) imm block (index_lt reg) hi hb))

  pub decode-movk :
      (imm block : ℕ)
      → decode aarch64 code ≡ some is
      → imm < 2 ^ 16
      → block < 4
      → decode aarch64 (emit_arm_movk code reg imm block)
        ≡ some (is ++ mov_keep (index reg) imm block ∷ [])
  unfolding emit_arm_movk
  decode-movk imm block whole hi hb =
      let e = move_word (index reg) imm block (index_lt reg) hi hb 0x1E5 in
      append_one aarch64 code _ is _ whole (
        ap (λ (w : ℕ). decode aarch64 (bytes_of 4 w)) e
        ∙ decode-word (fields (index reg) imm block (index_lt reg) hi hb 0x1E5) _
            (omega (arith, index_lt reg))
            (decode_word-movk (index reg) imm block (index_lt reg) hi hb))

  pub decode-mov_x86 :
      (imm : ℕ)
      → decode x86_64 code ≡ some is
      → imm < 2 ^ 64
      → decode x86_64 (emit_mov_reg_imm64 x86_64 code reg imm)
        ≡ some (is ++ mov_imm (index reg) imm ∷ [])
  unfolding emit_mov_reg_imm64
  decode-mov_x86 imm whole small =
      ap (decode x86_64) (
        append_assoc (code ++ 0x48 ∷ []) ((0xB8 + index reg) % 256 ∷ []) (bytes_of 8 imm)
        ∙ append_assoc code (0x48 ∷ []) ((0xB8 + index reg) % 256 ∷ bytes_of 8 imm))
      ∙ append_one x86_64 code (0x48 ∷ (0xB8 + index reg) % 256 ∷ bytes_of 8 imm) is
          (mov_imm (index reg) imm) whole
          (shape reg
            ∙ ap (λ (v : ℕ). some (mov_imm (index reg) v ∷ []))
                (number-bytes_of 8 imm (omega (arith, small))))
    where
      shape :
          (r : Reg)
          → decode x86_64 (0x48 ∷ (0xB8 + index r) % 256 ∷ bytes_of 8 imm)
            ≡ some (mov_imm (index r) (number (bytes_of 8 imm)) ∷ [])
      shape r0 = refl
      shape r1 = refl
      shape r2 = refl
      shape r3 = refl
      shape r4 = refl
      shape r5 = refl
      shape r6 = refl
      shape r7 = refl

decode_modrm :
    (d s m : ℕ)
    → d < 8
    → s < 8
    → m ≡ (3 * 2 ^ 3 + s) * 2 ^ 3 + d
    → decode x86_64 (0x48 ∷ 0x01 ∷ m ∷ []) ≡ some (add_reg d s ∷ [])
decode_modrm d s m hd hs e =
    ap
      (λ (o : Option Instr). elim o [
        | none ↦ decode_from x86_64 (0x48 ∷ 0x01 ∷ m ∷ []) []
        | some j ↦ prepend (j ∷ []) (decode_from x86_64 [] [])
      ])
      one
  where
    op : m / 64 ≡ 3
    op = omega (arith, e, hs, hd)

    dst : m % 8 ≡ d
    dst = omega (arith, e, hs, hd)

    src : m / 8 % 8 ≡ s
    src = omega (arith, e, hs, hd)

    one : complete_x86 (0x48 ∷ 0x01 ∷ m ∷ []) ≡ some (add_reg d s)
    one = ground (arith, op, dst, src)

decode_add :
    (d s : ℕ)
    → d < 8
    → s < 8
    → decode_word (((0x458 * 2 ^ 5 + s) * 2 ^ 11 + d) * 2 ^ 5 + d) ≡ some (add_reg d s)
decode_add d s hd hs = ground (arith, op1, op2, dst, src)
  where
    w : ℕ
    w = ((0x458 * 2 ^ 5 + s) * 2 ^ 11 + d) * 2 ^ 5 + d

    op1 : w / 2 ^ 23 ≡ 0x116
    op1 = omega arith

    op2 : w / 2 ^ 21 ≡ 0x458
    op2 = omega arith

    dst : w % 2 ^ 5 ≡ d
    dst = omega arith

    src : w / 2 ^ 16 % 2 ^ 5 ≡ s
    src = omega arith

pub decode-add :
    (arch : Arch) (code : List ℕ) (is : List Instr) (dst src : Reg)
    → decode arch code ≡ some is
    → decode arch (emit_add_reg_reg arch code dst src)
      ≡ some (is ++ add_reg (index dst) (index src) ∷ [])
unfolding emit_add_reg_reg
decode-add x86_64 code is dst src whole =
    ap (decode x86_64)
      (append_assoc (code ++ 0x48 ∷ []) (0x01 ∷ []) _ ∙ append_assoc code (0x48 ∷ []) _)
    ∙ append_one x86_64 code _ is _ whole (
        decode_modrm (index dst) (index src) _ (index_lt dst) (index_lt src)
          (modrm_byte (index dst) (index src) (index_lt dst) (index_lt src)))
decode-add aarch64 code is dst src whole = append_one aarch64 code _ is _ whole (
    ap (λ (w : ℕ). decode aarch64 (bytes_of 4 w))
      (add_word (index dst) (index src) (index_lt dst) (index_lt src))
    ∙ decode-word (((0x458 * 2 ^ 5 + index src) * 2 ^ 11 + index dst) * 2 ^ 5 + index dst) _
        (omega (arith, index_lt dst, index_lt src))
        (decode_add (index dst) (index src) (index_lt dst) (index_lt src)))

decode-ret :
    (arch : Arch) (code : List ℕ) (is : List Instr)
    → decode arch code ≡ some is
    → decode arch (emit_ret arch code) ≡ some (is ++ ret ∷ [])
unfolding emit_ret
decode-ret x86_64 code is whole = append_one x86_64 code (0xC3 ∷ []) is ret whole refl
decode-ret aarch64 code is whole = append_one aarch64 code (bytes_of 4 0xD65F03C0) is ret whole refl
