-- ===== src/Base/Text.antt =====
-- Bytes of texts, numbers printed in a base, and padding, as the source's string streams write them.
use Prim.Native.Char.{code}
use Prim.Native.String.{String}
use Prim.Native.Nat.{ℕ, zero, suc, ◌+◌, ◌-◌, ◌/◌, ◌%◌}
use mathlib.Core.List.{List, [], ◌∷◌, ◌++◌}
use hyperion_euntime_environ.Base.Tests.{ltb, if◌then◌else◌}
use hyperion_euntime_environ.Base.Lists.{length, replicate}

-- The bytes of an ASCII text.
abbrev pub codes : String → List ℕ
codes String.[] = []
codes (String.◌∷◌ c s) = code c ∷ codes s

-- A digit, with the letters of lower case after 9.
abbrev pub digit : ℕ → ℕ
digit d = if ltb d 10 then d + 48 else d + 87

-- The digits of n before those already printed. The fuel is the most digits that a number has.
unfoldable print_before : ℕ → ℕ → ℕ → List ℕ → List ℕ
print_before base zero n printed = printed
print_before base (suc fuel) n printed =
    let rest = print_before base fuel (n / base) (digit (n % base) ∷ printed) in
    if ltb n base then digit n ∷ printed else rest

-- A 64-bit number has at most 20 decimal digits, and at most 16 hexadecimal ones.
unfoldable pub to_decimal : ℕ → List ℕ
unfolding print_before
to_decimal n = print_before 10 20 n []

unfoldable pub to_hex : ℕ → List ℕ
unfolding print_before
to_hex n = print_before 16 16 n []

-- `std::left << std::setw(width)`, and `std::setfill('0') << std::setw(width)` on the right.
abbrev pub pad_left_aligned : ℕ → List ℕ → List ℕ
pad_left_aligned width text = text ++ replicate (width - length text) 32

abbrev pub pad_zeros : ℕ → List ℕ → List ℕ
pad_zeros width text = replicate (width - length text) 48 ++ text
