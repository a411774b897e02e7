-- ===== src/Keyboard/Tests.antt =====
-- Runs of the keyboard, and its theorems at a buffer that goes round its end.
use lite_core.Prelude.{◌≡◌, List, [], ◌∷◌, true, false, arith, if◌then◌else◌, ◌==◌}
use lite_core.Interrupt.{Irqs}
use lite_core.Keyboard.{Keyboard, Input, buffer_put, buffer_get, kbd_process, keyboard_getchar}
use lite_core.Keyboard.Buffer.{IsValid, contents, put, next, buffer_refines}
use lite_core.Keyboard.Typing.{Processed, kbd_process_refines}
use lite_core.Keyboard.Reading.{NonZero, await, seen, keyboard_getchar_refines}

-- "hi", written at the end and at the start of the buffer, with Shift down.
abbrev hi : Keyboard
hi = record {
  key_buffer = λ i. if i == 255 then 104 else 105;
  buffer_read_pos = 255;
  buffer_write_pos = 1;
  irq_enabled = true;
  shift_down = true;
  ctrl_down = false;
  alt_down = false;
}

abbrev idle : Irqs
idle = record {
  table = λ irq slot. 0;
  ctx = λ irq slot. 0;
  count = λ irq. 0;
  fifo = record { buf = λ i. 0; head = 0; tail = 0; count = 0 };
}

hi-IsValid : IsValid hi
hi-IsValid = record { read = omega arith; write = omega arith }

hi-NonZero : NonZero (contents hi)
hi-NonZero = (omega arith, (omega arith, tt))

-- The key of A, with Shift down.
kbd_process_refines_example : Processed 0x1E hi (kbd_process 0x1E hi)
kbd_process_refines_example = kbd_process_refines 0x1E hi hi-IsValid

-- An empty buffer, and a second poll that brings two characters.
abbrev empty : Keyboard
empty = record hi { buffer_read_pos = 1 }

abbrev polls : List Input
polls =
    record { status = 0; code = 0; serial = [] }
    ∷ record { status = 0; code = 0; serial = 97 ∷ 98 ∷ [] }
    ∷ []

keyboard_getchar_refines_example : seen (keyboard_getchar polls (empty, idle)) ≡ await polls []
keyboard_getchar_refines_example =
    keyboard_getchar_refines polls empty idle (record { read = omega arith; write = omega arith })
      tt (tt, ((omega arith, (omega arith, tt)), tt))

buffer_refines_example :
    (IsValid (buffer_put 33 hi) × (contents (buffer_put 33 hi) ≡ 104 ∷ 105 ∷ 33 ∷ []))
    × (IsValid (buffer_get hi).1
        × ((buffer_get hi).0 ≡ 104)
        × (contents (buffer_get hi).1 ≡ 105 ∷ []))
unfolding put next
buffer_refines_example = buffer_refines 33 hi hi-IsValid
