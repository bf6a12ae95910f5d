-- ===== src/InputIngest/Printable.antt =====
-- Texts of printable ASCII through src/core/InputIngest.cpp.
use hyperion_euntime_environ.Base.{
  ℕ, ◌-◌, ◌/◌, ◌≤◌, ◌≡◌, subst, not, ◌&&◌, Option, none, some, List, [], ◌∷◌, ◌++◌, ltb, ◌==◌,
  length, Bool-cases, inl, inr,
}
use hyperion_euntime_environ.Monitor.{same_bytes}
use hyperion_euntime_environ.InputIngest.{Clipboard, c_string, read_all, changed, ask, check}

-- Each byte is one glyph of the terminal.
abbrev pub Printable : List ℕ → Type 0
Printable [] = Unit
Printable (b ∷ bs) = ((32 ≤ b) × (b ≤ 126)) × Printable bs

abbrev pub AllPrintable : List (List ℕ) → Type 0
AllPrintable [] = Unit
AllPrintable (t ∷ ts) = Printable t × AllPrintable ts

Printable-append : (xs ys : List ℕ) → Printable xs → Printable ys → Printable (xs ++ ys)
Printable-append [] ys h k = k
Printable-append (x ∷ xs) ys h k = (h.0, Printable-append xs ys h.1 k)

c_string-Printable : (xs : List ℕ) → Printable xs → Printable (c_string xs)
unfolding c_string
c_string-Printable [] h = tt
c_string-Printable (b ∷ bs) h = elim (Bool-cases (b == 0)) [
  | inl z ↦ rw z tt
  | inr n ↦ rw n (h.0, c_string-Printable bs h.1)
]

read_all-Printable : (ts : List (List ℕ)) → AllPrintable ts → Printable (read_all ts)
unfolding read_all
read_all-Printable [] h = tt
read_all-Printable (t ∷ ts) h =
    Printable-append (c_string t) (read_all ts) (c_string-Printable t h.0)
      (read_all-Printable ts h.1)

-- What a call hands on.
abbrev IsPrintable : Option (List ℕ) → Type 0
IsPrintable none = Unit
IsPrintable (some t) = Printable t

abbrev pub PrintablePipe : Option (List (List ℕ)) → Type 0
PrintablePipe none = Unit
PrintablePipe (some ts) = AllPrintable ts

changed-Printable :
    (result : List ℕ) (s : Clipboard) → Printable result → IsPrintable (changed result s).0
unfolding changed
changed-Printable result s h =
    elim (Bool-cases (not (length result == 0) && not (same_bytes result s.last_clip))) [
      | inl t ↦ rw t h
      | inr t ↦ rw t tt
    ]

ask-Printable :
    (pipe : Option (List (List ℕ))) (s : Clipboard)
    → PrintablePipe pipe
    → IsPrintable (ask pipe s).0
unfolding ask
ask-Printable none s h = tt
ask-Printable (some ts) s h = changed-Printable (read_all ts) s (read_all-Printable ts h)

check-IsPrintable :
    (now : ℕ) (pipe : Option (List (List ℕ))) (s : Clipboard)
    → PrintablePipe pipe
    → IsPrintable (check now pipe s).0
unfolding check
check-IsPrintable now pipe s h = elim (Bool-cases (ltb ((now - s.last_check) / 1000000) 200)) [
  | inl t ↦ rw t tt
  | inr t ↦ rw t (ask-Printable pipe (record s { last_check = now }) h)
]

pub check-Printable :
    (now : ℕ) (pipe : Option (List (List ℕ))) (s : Clipboard) (t : List ℕ)
    → PrintablePipe pipe
    → (check now pipe s).0 ≡ some t
    → Printable t
check-Printable now pipe s t h e = subst IsPrintable e (check-IsPrintable now pipe s h)
