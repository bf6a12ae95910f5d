-- ===== src/Examples/OfArm64.antt =====
-- src/kernel/arch/arm64/switch.S on stacks at 4096 and 8192.
use hyperion_euntime_environ.Base.{◌≡◌, refl, inr, some, arith}
use hyperion_euntime_environ.Scheduler.{Memory}
use hyperion_euntime_environ.Arm64.{Registers, switch_context, save_registers, stp}
use hyperion_euntime_environ.Arm64.Frames.{arm_switch_back}
use hyperion_euntime_environ.Arm64.Spawn.{fresh}

abbrev caller : Registers
caller = record (fresh 7 1) { sp = 4096 }

abbrev other : Registers
other = record (fresh 9 2) { sp = 8192 }

abbrev zeros : Memory
zeros a = 0

left_at : (switch_context caller zeros 8000).0 ≡ 4000
unfolding switch_context save_registers stp
left_at = refl

arm_switch_back_example :
    (switch_context other
      (switch_context caller zeros 8000).1
      (switch_context caller zeros 8000).0).2
    ≡ some (record caller { pc = caller.x30 })
arm_switch_back_example =
    arm_switch_back caller other zeros (switch_context caller zeros 8000).1 8000 (omega arith)
      (omega arith) (omega arith) (λ i h. refl)
      (omega arith, omega arith, inr (omega (arith, left_at)))
