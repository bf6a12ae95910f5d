-- ===== src/Emitter.antt =====
-- include/core/JITEmitter.hpp and include/core/JITAssembler.hpp: machine code for x86-64 and for
-- ARM64, as the bytes of `m_code`. The architecture that the source tests by `#if` is an argument.
pub mod Decode
pub mod Bytes
pub mod Encode
pub mod Program
use hyperion_euntime_environ.Base.{
  ℕ, zero, suc, ◌+◌, ◌*◌, ◌/◌, ◌%◌, ◌^◌, bit_and, bit_or, Bool, true, false, ◌||◌, not, Option,
  none, some, List, [], ◌∷◌, ◌++◌, ltb, ◌==◌, if◌then◌else◌, length,
}

pub data Arch : Type 0 where
  x86_64 : Arch
  aarch64 : Arch

pub data Reg : Type 0 where
  r0 : Reg
  r1 : Reg
  r2 : Reg
  r3 : Reg
  r4 : Reg
  r5 : Reg
  r6 : Reg
  r7 : Reg

-- `static_cast<uint8_t>(reg)`
abbrev pub index : Reg → ℕ
index r0 = 0
index r1 = 1
index r2 = 2
index r3 = 3
index r4 = 4
index r5 = 5
index r6 = 6
index r7 = 7

-- The bytes of a number in memory: both machines are little-endian.
abbrev pub bytes_of : ℕ → ℕ → List ℕ
bytes_of zero n = []
bytes_of (suc size) n = n % 256 ∷ bytes_of size (n / 256)

abbrev emit_bytes : List ℕ → ℕ → ℕ → List ℕ
emit_bytes code value size = code ++ bytes_of size value

unfoldable pub emit_arm_movz : List ℕ → Reg → ℕ → ℕ → List ℕ
emit_arm_movz code reg imm shift_block =
    emit_bytes code
      (bit_or (bit_or (bit_or 0xD2800000 (shift_block * 2 ^ 21)) (imm * 2 ^ 5)) (index reg)) 4

unfoldable pub emit_arm_movk : List ℕ → Reg → ℕ → ℕ → List ℕ
emit_arm_movk code reg imm shift_block =
    emit_bytes code
      (bit_or (bit_or (bit_or 0xF2800000 (shift_block * 2 ^ 21)) (imm * 2 ^ 5)) (index reg)) 4

-- `(imm >> shift) & 0xFFFF`
abbrev pub half_word : ℕ → ℕ → ℕ
half_word imm shift = bit_and (imm / 2 ^ shift) 0xFFFF

-- One of the first two MOVKs, under its test.
unfoldable pub emit_half : List ℕ → Reg → ℕ → ℕ → List ℕ
unfolding emit_arm_movk
emit_half code reg imm block =
    if not (half_word imm (16 * block) == 0) || not (imm / 2 ^ (16 * block) == 0)
    then emit_arm_movk code reg (half_word imm (16 * block)) block
    else code

unfoldable pub emit_mov_reg_imm64 : Arch → List ℕ → Reg → ℕ → List ℕ
unfolding emit_arm_movz emit_half emit_arm_movk
emit_mov_reg_imm64 x86_64 code reg imm =
    emit_bytes ((code ++ 0x48 ∷ []) ++ (0xB8 + index reg) % 256 ∷ []) imm 8
emit_mov_reg_imm64 aarch64 code reg imm =
    let movz = emit_arm_movz code reg (bit_and imm 0xFFFF) 0 in
    let low = emit_half (emit_half movz reg imm 1) reg imm 2 in
    if not (half_word imm 48 == 0) then emit_arm_movk low reg (half_word imm 48) 3 else low

unfoldable pub emit_add_reg_reg : Arch → List ℕ → Reg → Reg → List ℕ
emit_add_reg_reg x86_64 code dst src =
    ((code ++ 0x48 ∷ []) ++ 0x01 ∷ [])
    ++ bit_or (bit_or 0xC0 (index src * 2 ^ 3)) (index dst) % 256 ∷ []
emit_add_reg_reg aarch64 code dst src =
    emit_bytes code
      (bit_or (bit_or (bit_or 0x8B000000 (index src * 2 ^ 16)) (index dst * 2 ^ 5)) (index dst)) 4

unfoldable pub emit_ret : Arch → List ℕ → List ℕ
emit_ret x86_64 code = code ++ 0xC3 ∷ []
emit_ret aarch64 code = emit_bytes code 0xD65F03C0 4

pub data JitError : Type 0 where
  mmap_failed : JitError
  memory_protection_failed : JitError
  code_too_large : JitError

-- The page of a `JITAssembler`, with what it holds and whether it is executable.
pub record Page : Type 0 where
  pub size : ℕ
  pub code : List ℕ
  pub executable : Bool

pub data Result : Type 0 where
  ready : Page → Result
  failed : JitError → Result

-- `RAX` has the index 0.
unfoldable pub test_program : Arch → List ℕ
unfolding emit_mov_reg_imm64 emit_ret
test_program arch = emit_ret arch (emit_mov_reg_imm64 arch [] r0 0xDEADBEEFCAFEBABE)

-- `initialize`, given the page size and whether `mmap` and `mprotect` succeed.
unfoldable pub initialize : Arch → ℕ → Bool → Bool → Result
unfolding test_program
initialize arch page_size mmap_ok mprotect_ok =
    let code = test_program arch in
    if not mmap_ok
    then failed mmap_failed
    else if ltb page_size (length code)
    then failed code_too_large
    else if not mprotect_ok
    then failed memory_protection_failed
    else ready (record { size = page_size; code = code; executable = true })
