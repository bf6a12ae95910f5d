-- ===== src/Emitter/Decode.antt =====
-- The instructions that the emitter uses, as the manuals of the two architectures define their
-- encodings and their effects on the general registers.
use hyperion_euntime_environ.Base.{
  ℕ, ◌+◌, ◌*◌, ◌/◌, ◌%◌, ◌^◌, ◌&&◌, Option, none, some, List, [], ◌∷◌, ◌++◌, ◌==◌, if◌then◌else◌,
  ◌≡◌, refl, ap, Option-cases, inl, inr, arith, of_some, append_assoc, sym, ◌∙◌,
}
use hyperion_euntime_environ.Emitter.{Arch, x86_64, aarch64}

pub data Instr : Type 0 where
  mov_imm : ℕ → ℕ → Instr
  mov_keep : ℕ → ℕ → ℕ → Instr
  add_reg : ℕ → ℕ → Instr
  ret : Instr

abbrev pub number : List ℕ → ℕ
number [] = 0
number (b ∷ rest) = b + 256 * number rest

-- The instruction that bytes make up, if they make up one.
abbrev pub complete_x86 : List ℕ → Option Instr
complete_x86 (a ∷ []) = if a == 0xC3 then some ret else none
complete_x86 (a ∷ b ∷ c ∷ []) =
    if (a == 0x48) && ((b == 0x01) && (c / 64 == 3))
    then some (add_reg (c % 8) (c / 8 % 8))
    else none
complete_x86 (a ∷ b ∷ i0 ∷ i1 ∷ i2 ∷ i3 ∷ i4 ∷ i5 ∷ i6 ∷ i7 ∷ []) =
    if (a == 0x48) && (b / 8 == 0x17)
    then some (mov_imm (b % 8) (number (i0 ∷ i1 ∷ i2 ∷ i3 ∷ i4 ∷ i5 ∷ i6 ∷ i7 ∷ [])))
    else none
complete_x86 _ = none

-- MOVZ and MOVK of a 64-bit register, ADD of shifted registers with no shift and with equal first
-- operand and destination, and RET X30.
abbrev pub decode_word : ℕ → Option Instr
decode_word w =
    if w / 2 ^ 23 == 0x1A5
    then some (mov_imm (w % 2 ^ 5) (w / 2 ^ 5 % 2 ^ 16 * 2 ^ (16 * (w / 2 ^ 21 % 4))))
    else if w / 2 ^ 23 == 0x1E5
    then some (mov_keep (w % 2 ^ 5) (w / 2 ^ 5 % 2 ^ 16) (w / 2 ^ 21 % 4))
    else if (w / 2 ^ 21 == 0x458) && ((w / 2 ^ 10 % 2 ^ 6 == 0) && (w / 2 ^ 5 % 2 ^ 5 == w % 2 ^ 5))
    then some (add_reg (w % 2 ^ 5) (w / 2 ^ 16 % 2 ^ 5))
    else if w == 0xD65F03C0
    then some ret
    else none

abbrev complete_arm : List ℕ → Option Instr
complete_arm (b0 ∷ b1 ∷ b2 ∷ b3 ∷ []) = decode_word (number (b0 ∷ b1 ∷ b2 ∷ b3 ∷ []))
complete_arm _ = none

abbrev pub complete : Arch → List ℕ → Option Instr
complete x86_64 bytes = complete_x86 bytes
complete aarch64 bytes = complete_arm bytes

-- The instructions of a code, read byte by byte: `read` are the bytes of the one that is begun.
abbrev pub prepend : List Instr → Option (List Instr) → Option (List Instr)
prepend is none = none
prepend is (some js) = some (is ++ js)

abbrev pub decode_from : Arch → List ℕ → List ℕ → Option (List Instr)
decode_from arch read (b ∷ rest) = elim (complete arch (read ++ b ∷ [])) [
  | none ↦ decode_from arch (read ++ b ∷ []) rest
  | some i ↦ prepend (i ∷ []) (decode_from arch [] rest)
]
decode_from arch [] [] = some []
decode_from arch (b ∷ read) [] = none

abbrev pub decode : Arch → List ℕ → Option (List Instr)
decode arch code = decode_from arch [] code

prepend-prepend :
    (is js : List Instr) (o : Option (List Instr))
    → prepend is (prepend js o) ≡ prepend (is ++ js) o
prepend-prepend is js none = refl
prepend-prepend is js (some ks) = ap some (sym (append_assoc is js ks))

prepend_nil : (o : Option (List Instr)) → o ≡ prepend [] o
prepend_nil none = refl
prepend_nil (some js) = refl

-- Code that is whole decodes as before when more code follows it.
pub decode_from-append :
    (arch : Arch) (read c d : List ℕ) (is : List Instr)
    → decode_from arch read c ≡ some is
    → decode_from arch read (c ++ d) ≡ prepend is (decode arch d)
decode_from-append arch read (b ∷ c) d is h = elim (Option-cases (complete arch (read ++ b ∷ []))) [
  | inl e ↦ choose e ∙ decode_from-append arch (read ++ b ∷ []) c d is (sym (ap (chosen c) e) ∙ h)
  | inr (i, e) ↦ elim (Option-cases (decode arch c)) [
    | inl undecoded ↦ absurd (ground (arith, sym (ap (chosen c) e) ∙ h, undecoded))
    | inr (js, decoded) ↦
        choose e
        ∙ ap (prepend (i ∷ [])) (decode_from-append arch [] c d js decoded)
        ∙ prepend-prepend (i ∷ []) js (decode arch d)
        ∙ ap (λ (ks : List Instr). prepend ks (decode arch d))
            (of_some (sym (ap (prepend (i ∷ [])) decoded) ∙ sym (ap (chosen c) e) ∙ h))
  ]
]
  where
    chosen : List ℕ → Option Instr → Option (List Instr)
    chosen rest o = elim o [
      | none ↦ decode_from arch (read ++ b ∷ []) rest
      | some i ↦ prepend (i ∷ []) (decode_from arch [] rest)
    ]

    choose :
        {o : Option Instr}
        → complete arch (read ++ b ∷ []) ≡ o
        → decode_from arch read (b ∷ (c ++ d)) ≡ chosen (c ++ d) o
    choose e = ap (chosen (c ++ d)) e
decode_from-append arch [] [] d is h =
    prepend_nil (decode arch d) ∙ ap (λ (ks : List Instr). prepend ks (decode arch d)) (of_some h)
decode_from-append arch (b ∷ read) [] d is h = ground (arith, h)
