-- ===== src/Examples/OfEmitter.antt =====
-- include/core/JITEmitter.hpp and include/core/JITAssembler.hpp on both machines.
use hyperion_euntime_environ.Base.{◌≡◌, refl, some, [], arith}
use hyperion_euntime_environ.Emitter.{aarch64, r2, index, emit_mov_reg_imm64}
use hyperion_euntime_environ.Emitter.Program.{Regs, assign, run, run-mov}

abbrev regs : Regs
regs q = q

-- An immediate whose second half-word is zero.
run-mov_example :
    run aarch64 (emit_mov_reg_imm64 aarch64 [] r2 0x1_0000_0005) regs
    ≡ some (assign regs (index r2) 0x1_0000_0005)
run-mov_example = run-mov aarch64 [] r2 0x1_0000_0005 regs regs (omega arith) refl
