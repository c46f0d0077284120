-- ===== src/Terminal/Tests.antt =====
-- Lab_4/LINUX/getch.h: the properties on a terminal with keys waiting, and on one without.
use labs_spo.Common.{◌≡◌, refl, true, false, [], some}
use labs_spo.Common.Bytes.{Bytes, bytes}
use labs_spo.Terminal.{Termios, Terminal, kbhit, getch}
use labs_spo.Terminal.Keys.{keys, SameSettings, key_once}

abbrev cooked : Termios
cooked = record { icanon = true; echo = true; other = 35 }

-- A shell's terminal, on which keys have been typed without an end of line.
abbrev terminal : Bytes → Terminal
terminal typed = record {
  settings = cooked;
  nonblock = false;
  buffer = [];
  typed = typed;
  old = cooked;
  current = cooked;
}

key_once_example :
    (u v : Terminal) × (kbhit (terminal (bytes "+-q")) ≡ some (true, u))
    × (getch u ≡ some (some b'+', v))
    × (keys v ≡ bytes "-q")
    × SameSettings (terminal (bytes "+-q")) v
key_once_example = key_once (terminal (bytes "+-q")) b'+' (bytes "-q") refl
