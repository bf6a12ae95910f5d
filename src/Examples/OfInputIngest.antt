-- ===== src/Examples/OfInputIngest.antt =====
-- src/core/InputIngest.cpp: three calls, the second of them too early.
use hyperion_euntime_environ.Base.{some, List, [], ◌∷◌}
use hyperion_euntime_environ.InputIngest.{Clipboard}
use hyperion_euntime_environ.InputIngest.Changes.{Call, texts, AreChanges, texts-AreChanges}

abbrev idle : Clipboard
idle = record { last_clip = []; last_check = 0 }

abbrev calls : List Call
calls =
    (300_000_000, some ((65 ∷ []) ∷ []))
    ∷ (400_000_000, some ((66 ∷ []) ∷ []))
    ∷ (900_000_000, some ((66 ∷ []) ∷ []))
    ∷ []

texts-AreChanges_example : AreChanges idle.last_check idle.last_clip (texts calls idle)
texts-AreChanges_example = texts-AreChanges calls idle
