-- ===== src/InputIngest.antt =====
-- include/core/InputIngest.hpp and src/core/InputIngest.cpp: the clipboard is asked at most every 200
-- ms, and a text is handed on when it has changed.
pub mod Changes
pub mod Printable
use hyperion_euntime_environ.Base.{
  ℕ, zero, suc, ◌+◌, ◌-◌, ◌*◌, ◌/◌, Bool, true, false, not, ◌&&◌, Option, none, some, List, [], ◌∷◌,
  ◌++◌, ltb, ◌==◌, if◌then◌else◌, length,
}
use hyperion_euntime_environ.Monitor.{same_bytes}

-- `s_last_clip` and `s_last_check`. Time is in nanoseconds of the steady clock.
pub record Clipboard : Type 0 where
  pub last_clip : List ℕ
  pub last_check : ℕ

-- A buffer of `fgets` is read as a C string: up to its first zero byte.
unfoldable pub c_string : List ℕ → List ℕ
c_string [] = []
c_string (b ∷ bs) = if b == 0 then [] else b ∷ c_string bs

-- The buffers that are read from the pipe, one behind the other.
unfoldable pub read_all : List (List ℕ) → List ℕ
unfolding c_string
read_all [] = []
read_all (buffer ∷ buffers) = c_string buffer ++ read_all buffers

unfoldable pub changed : List ℕ → Clipboard → Option (List ℕ) × Clipboard
changed result s =
    if not (length result == 0) && not (same_bytes result s.last_clip)
    then (some result, record s { last_clip = result })
    else (none, s)

-- After the throttle. No pipe: `popen` has failed.
unfoldable pub ask : Option (List (List ℕ)) → Clipboard → Option (List ℕ) × Clipboard
unfolding changed read_all
ask none s = (none, s)
ask (some buffers) s = changed (read_all buffers) s

-- `check`, given the time and what the child process writes.
unfoldable pub check : ℕ → Option (List (List ℕ)) → Clipboard → Option (List ℕ) × Clipboard
unfolding ask
check now pipe s =
    if ltb ((now - s.last_check) / 1000000) 200
    then (none, s)
    else ask pipe (record s { last_check = now })
