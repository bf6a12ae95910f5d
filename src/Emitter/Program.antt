-- ===== src/Emitter/Program.antt =====
-- What the emitted code does when it runs.
use hyperion_euntime_environ.Base.{
  ℕ, suc, ◌+◌, ◌*◌, ◌/◌, ◌%◌, ◌^◌, ◌<◌, ◌≤◌, ◌≡◌, refl, sym, ap, ap₂, ◌∙◌, fun_ext, bit_and, Bool,
  true, false, not, ◌||◌, Option, none, some, of_some, List, [], ◌∷◌, ◌++◌, ◌==◌, arith,
  if◌then◌else◌, Bool-cases, Option-cases, inl, inr, length, ltb, ltb→lt, ◌⊎◌,
}
use hyperion_euntime_environ.Base.Bits.{bit_and_mask}
use hyperion_euntime_environ.Emitter.{
  Arch, x86_64, aarch64, Reg, index, half_word, emit_half, emit_arm_movz, emit_arm_movk,
  emit_mov_reg_imm64, emit_add_reg_reg, test_program, initialize, Page, JitError, mmap_failed,
  code_too_large, memory_protection_failed, ready, failed,
}
use hyperion_euntime_environ.Emitter.Decode.{Instr, mov_imm, mov_keep, add_reg, ret, decode}
use hyperion_euntime_environ.Emitter.Encode.{decode-movz, decode-movk, decode-mov_x86, decode-add}

-- The general registers, by number.
abbrev pub Regs : Type 0
Regs = ℕ → ℕ

abbrev pub assign : Regs → ℕ → ℕ → Regs
assign regs r v q = if q == r then v else regs q

-- A move that keeps the other 16-bit parts.
abbrev replace_half : ℕ → ℕ → ℕ → ℕ
replace_half old imm block =
    old / 2 ^ (16 * (block + 1)) * 2 ^ (16 * (block + 1))
    + imm * 2 ^ (16 * block)
    + old % 2 ^ (16 * block)

abbrev exec_one : Instr → Regs → Regs
exec_one (mov_imm r v) regs = assign regs r v
exec_one (mov_keep r imm block) regs = assign regs r (replace_half (regs r) imm block)
exec_one (add_reg d s) regs = assign regs d ((regs d + regs s) % 2 ^ 64)
exec_one ret regs = regs

abbrev exec : List Instr → Regs → Regs
exec [] regs = regs
exec (i ∷ is) regs = exec is (exec_one i regs)

abbrev pub run : Arch → List ℕ → Regs → Option Regs
run arch code regs = elim (decode arch code) [ none ↦ none | some is ↦ some (exec is regs) ]

-- A function call: register 0 at the first return.
abbrev pub returned : List Instr → Regs → Option ℕ
returned [] regs = none
returned (ret ∷ is) regs = some (regs 0)
returned (mov_imm r v ∷ is) regs = returned is (exec_one (mov_imm r v) regs)
returned (mov_keep r imm block ∷ is) regs = returned is (exec_one (mov_keep r imm block) regs)
returned (add_reg d s ∷ is) regs = returned is (exec_one (add_reg d s) regs)

abbrev pub call : Arch → List ℕ → Regs → Option ℕ
call arch code regs = elim (decode arch code) [ none ↦ none | some is ↦ returned is regs ]

exec-append : (is js : List Instr) (regs : Regs) → exec (is ++ js) regs ≡ exec js (exec is regs)
exec-append [] js regs = refl
exec-append (i ∷ is) js regs = exec-append is js (exec_one i regs)

run-decode :
    (arch : Arch) (code : List ℕ) (is : List Instr) (regs : Regs)
    → decode arch code ≡ some is
    → run arch code regs ≡ some (exec is regs)
run-decode arch code is regs e =
    ap (λ (o : Option (List Instr)). elim o [ none ↦ none | some js ↦ some (exec js regs) ]) e

-- Appending one instruction runs it last.
run-one :
    (arch : Arch) (code after : List ℕ) (i : Instr) (regs regs1 : Regs)
    → ((is : List Instr) → decode arch code ≡ some is → decode arch after ≡ some (is ++ i ∷ []))
    → run arch code regs ≡ some regs1
    → run arch after regs ≡ some (exec_one i regs1)
run-one arch code after i regs regs1 appends ran = elim (Option-cases (decode arch code)) [
  | inl e ↦ absurd (
      ground (
        arith,
        ran,
        ap (λ (o : Option (List Instr)). elim o [ none ↦ none | some js ↦ some (exec js regs) ]) e,
      ))
  | inr (is, e) ↦
      run-decode arch after (is ++ i ∷ []) regs (appends is e)
      ∙ ap some (
          exec-append is (i ∷ []) regs
          ∙ ap (exec_one i) (of_some (sym (run-decode arch code is regs e) ∙ ran)))
]

assign_self : (regs : Regs) (r v : ℕ) → assign regs r v r ≡ v
assign_self regs r v = ground arith

assign-assign : (regs : Regs) (r v w : ℕ) → assign (assign regs r v) r w ≡ assign regs r w
assign-assign regs r v w = fun_ext (λ q. ground arith)

-- Where a code decodes and runs to some registers, the code that `emit_add_reg_reg` makes of it
-- runs to these registers with the sum of the two, modulo 2 ^ 64, in the destination, on x86-64 and
-- on ARM64.
pub run-add :
    (arch : Arch) (code : List ℕ) (dst src : Reg) (regs regs1 : Regs)
    → run arch code regs ≡ some regs1
    → run arch (emit_add_reg_reg arch code dst src) regs
      ≡ some (assign regs1 (index dst) ((regs1 (index dst) + regs1 (index src)) % 2 ^ 64))
run-add arch code dst src regs regs1 ran =
    run-one arch code (emit_add_reg_reg arch code dst src) (add_reg (index dst) (index src)) regs
      regs1 (λ is whole. decode-add arch code is dst src whole) ran

half_word-eq : (imm shift : ℕ) → half_word imm shift ≡ imm / 2 ^ shift % 2 ^ 16
half_word-eq imm shift = bit_and_mask 16 (imm / 2 ^ shift)

half_word_lt : (imm shift : ℕ) → half_word imm shift < 2 ^ 16
half_word_lt imm shift = omega (arith, half_word-eq imm shift)

-- A MOVK on a register that holds the parts below its block.
module _ (reg : Reg) (imm : ℕ) (regs regs1 : Regs) where
  -- After the parts below `block`.
  abbrev Below : List ℕ → ℕ → Type 0
  Below c block = run aarch64 c regs ≡ some (assign regs1 (index reg) (imm % 2 ^ (16 * block)))

  movk-Below :
      (c : List ℕ) (block : ℕ)
      → block < 4
      → replace_half (imm % 2 ^ (16 * block)) (imm / 2 ^ (16 * block) % 2 ^ 16) block
        ≡ imm % 2 ^ (16 * suc block)
      → Below c block
      → Below (emit_arm_movk c reg (half_word imm (16 * block)) block) (suc block)
  movk-Below c block hb value ran =
      let h = half_word imm (16 * block) in
      let old = imm % 2 ^ (16 * block) in
      run-one aarch64 c (emit_arm_movk c reg h block) (mov_keep (index reg) h block) regs
        (assign regs1 (index reg) old)
        (λ is whole. decode-movk c is reg h block whole (half_word_lt imm (16 * block)) hb) ran
      ∙ ap some (
          assign-assign regs1 (index reg) old _
          ∙ ap (assign regs1 (index reg)) (
              ap₂ (λ (x y : ℕ). replace_half x y block) (assign_self regs1 (index reg) old)
                (half_word-eq imm (16 * block))
              ∙ value))

  half-Below :
      (c : List ℕ) (block : ℕ)
      → block < 4
      → replace_half (imm % 2 ^ (16 * block)) (imm / 2 ^ (16 * block) % 2 ^ 16) block
        ≡ imm % 2 ^ (16 * suc block)
      → (imm / 2 ^ (16 * block) ≡ 0 → imm % 2 ^ (16 * block) ≡ imm % 2 ^ (16 * suc block))
      → Below c block
      → Below (emit_half c reg imm block) (suc block)
  unfolding emit_half
  half-Below c block hb value high_zero ran =
      elim (Bool-cases
        (not (half_word imm (16 * block) == 0) || not (imm / 2 ^ (16 * block) == 0))) [
          | inl emits ↦ rw (emits, emit_half) (movk-Below c block hb value ran)
          | inr skips ↦
              rw (skips, emit_half)
                (ran ∙ ap (λ (v : ℕ). some (assign regs1 (index reg) v)) (high_zero (ground arith)))
        ]

top_zero : (imm : ℕ) → imm < 2 ^ 64 → imm / 2 ^ 48 % 2 ^ 16 ≡ 0 → imm % 2 ^ 48 ≡ imm
top_zero imm small z = omega arith

-- Where a code decodes and runs to some registers, the code that `emit_mov_reg_imm64` makes of it
-- runs to these registers with the immediate, below 2 ^ 64, in the named one, on x86-64 and on
-- ARM64, whatever parts of the immediate are zero.
pub run-mov :
    (arch : Arch) (code : List ℕ) (reg : Reg) (imm : ℕ) (regs regs1 : Regs)
    → imm < 2 ^ 64
    → run arch code regs ≡ some regs1
    → run arch (emit_mov_reg_imm64 arch code reg imm) regs ≡ some (assign regs1 (index reg) imm)
unfolding emit_mov_reg_imm64
run-mov x86_64 code reg imm regs regs1 small ran =
    run-one x86_64 code (emit_mov_reg_imm64 x86_64 code reg imm) (mov_imm (index reg) imm) regs
      regs1 (λ is whole. decode-mov_x86 code is reg imm whole small) ran
run-mov aarch64 code reg imm regs regs1 small ran =
    let imm0 = bit_and imm 0xFFFF in
    let movz = emit_arm_movz code reg imm0 0 in
    let one = emit_half movz reg imm 1 in
    let two = emit_half one reg imm 2 in
    let first : Below reg imm regs regs1 movz 1 =
      run-one aarch64 code movz (mov_imm (index reg) (imm0 * 2 ^ (16 * 0))) regs regs1
        (λ is whole.
          decode-movz code is reg imm0 0 whole (omega (arith, bit_and_mask 16 imm)) (omega arith))
        ran
      ∙ ap (λ (v : ℕ). some (assign regs1 (index reg) v)) (omega (arith, bit_and_mask 16 imm)) in
    let second =
      half-Below reg imm regs regs1 movz 1 (omega arith) (omega arith) (λ z. omega (arith, z))
        first in
    let third =
      half-Below reg imm regs regs1 one 2 (omega arith) (omega arith) (λ z. omega (arith, z))
        second in
    let fits : imm % 2 ^ 64 ≡ imm = omega (arith, small) in
    let whole = λ (v : ℕ). some (assign regs1 (index reg) v) in
    elim (Bool-cases (not (half_word imm 48 == 0))) [
      | inl emits ↦
          rw emits
            (movk-Below reg imm regs regs1 two 3 (omega arith) (omega arith) third ∙ ap whole fits)
      | inr skips ↦
          rw skips (third ∙ ap whole (top_zero imm small (ground (arith, half_word-eq imm 48))))
    ]

-- What the test program returns, by running it.
test_program-call :
    (arch : Arch) (regs : Regs) → call arch (test_program arch) regs ≡ some 0xDEADBEEFCAFEBABE
unfolding test_program
test_program-call x86_64 regs = refl
test_program-call aarch64 regs = refl

-- Why `initialize` fails: a system call did, or the page is too small.
pub data Hindered (page_size code_size : ℕ) (mmap_ok mprotect_ok : Bool) : JitError → Type 0 where
  no_page : mmap_ok ≡ false → Hindered page_size code_size mmap_ok mprotect_ok mmap_failed
  no_room : page_size < code_size → Hindered page_size code_size mmap_ok mprotect_ok code_too_large
  no_protection :
      mprotect_ok ≡ false
      → Hindered page_size code_size mmap_ok mprotect_ok memory_protection_failed

ltb-false : (n m : ℕ) → ltb m n ≡ false → n ≤ m
ltb-false n m h = ground (arith, h)

-- `JITAssembler::initialize` either ends with an executable page that the code fits in and whose
-- call returns 0xDEADBEEFCAFEBABE from any registers, or it names the failed system call or the
-- page that is too small.
pub initialize-call :
    (arch : Arch) (page_size : ℕ) (mmap_ok mprotect_ok : Bool) (regs : Regs)
    → ((page : Page) × (initialize arch page_size mmap_ok mprotect_ok ≡ ready page)
        × (page.executable ≡ true)
        × (length page.code ≤ page.size)
        × (call arch page.code regs ≡ some 0xDEADBEEFCAFEBABE))
      ⊎ ((error : JitError) × (initialize arch page_size mmap_ok mprotect_ok ≡ failed error)
          × Hindered page_size (length (test_program arch)) mmap_ok mprotect_ok error)
unfolding initialize
initialize-call arch page_size false p regs = inr (mmap_failed, refl, no_page refl)
initialize-call arch page_size true p regs =
    elim (Bool-cases (ltb page_size (length (test_program arch)))) [
      | inl long ↦ inr (
        code_too_large,
        rw (long, initialize) refl,
        no_room (ltb→lt page_size (length (test_program arch)) long),
      )
      | inr fits ↦ elim (Bool-cases p) [
        | inl ok ↦ inl (
          record { size = page_size; code = test_program arch; executable = true },
          rw (fits, ok, initialize) refl,
          refl,
          ltb-false (length (test_program arch)) page_size fits,
          test_program-call arch regs,
        )
        | inr no_ok ↦
            inr (memory_protection_failed, rw (fits, no_ok, initialize) refl, no_protection no_ok)
      ]
    ]
