-- ===== src/Keyboard.antt =====
-- The keyboard of src/kernel/device/keyboard.c: the ring of typed characters, the scan codes with
-- their modifier keys, and the functions that clients call. What the ports hold and what the serial
-- line has are arguments. What `printk` echoes is left out.
pub mod Buffer
pub mod Typing
pub mod Reading
mod Tests
use lite_core.Prelude.{
  ℕ, zero, suc, ◌+◌, ◌-◌, ◌*◌, ◌%◌, ◌^◌, Bool, true, false, ◌&&◌, ◌||◌, not, List, [], ◌∷◌, Option,
  none, some, if◌then◌else◌, ltb, leb, ◌==◌, update,
}
use lite_core.Interrupt.{Irqs, Status, ok, failed, interrupt_raise, interrupt_register}

abbrev pub key_buffer_size : ℕ
key_buffer_size = 256

-- The file's variables, with the modifiers that `kbd_process` keeps.
pub record Keyboard : Type 0 where
  pub key_buffer : ℕ → ℕ
  pub buffer_read_pos : ℕ
  pub buffer_write_pos : ℕ
  pub irq_enabled : Bool
  pub shift_down : Bool
  pub ctrl_down : Bool
  pub alt_down : Bool

-- One slot stays free: a character that finds no room is dropped.
unfoldable pub buffer_put : ℕ → Keyboard → Keyboard
buffer_put c k =
    let next_pos = (k.buffer_write_pos + 1) % key_buffer_size in
    if next_pos == k.buffer_read_pos then k else record k {
      key_buffer = update k.key_buffer k.buffer_write_pos c;
      buffer_write_pos = next_pos;
    }

-- 0 if there is no character.
unfoldable pub buffer_get : Keyboard → ℕ × Keyboard
buffer_get k = if k.buffer_read_pos == k.buffer_write_pos then (0, k) else (
  k.key_buffer k.buffer_read_pos,
  record k { buffer_read_pos = (k.buffer_read_pos + 1) % key_buffer_size },
)

-- An entry of an array initialiser; what it leaves out is 0.
unfoldable pub entry : List ℕ → ℕ → ℕ
entry [] i = 0
entry (c ∷ cs) zero = c
entry (c ∷ cs) (suc i) = entry cs i

abbrev pub scancode_map : List ℕ
scancode_map =
    0 ∷ 27 ∷ 49 ∷ 50 ∷ 51 ∷ 52 ∷ 53 ∷ 54 ∷ 55 ∷ 56 ∷ 57 ∷ 48 ∷ 45 ∷ 61 ∷ 8 ∷ 9 ∷ 113 ∷ 119 ∷ 101
    ∷ 114 ∷ 116 ∷ 121 ∷ 117 ∷ 105 ∷ 111 ∷ 112 ∷ 91 ∷ 93 ∷ 10 ∷ 0 ∷ 97 ∷ 115 ∷ 100 ∷ 102 ∷ 103 ∷ 104
    ∷ 106 ∷ 107 ∷ 108 ∷ 59 ∷ 39 ∷ 96 ∷ 0 ∷ 92 ∷ 122 ∷ 120 ∷ 99 ∷ 118 ∷ 98 ∷ 110 ∷ 109 ∷ 44 ∷ 46 ∷ 47
    ∷ 0 ∷ 42 ∷ 0 ∷ 32 ∷ []

abbrev pub scancode_map_shift : List ℕ
scancode_map_shift =
    0 ∷ 27 ∷ 33 ∷ 64 ∷ 35 ∷ 36 ∷ 37 ∷ 94 ∷ 38 ∷ 42 ∷ 40 ∷ 41 ∷ 95 ∷ 43 ∷ 8 ∷ 9 ∷ 81 ∷ 87 ∷ 69 ∷ 82
    ∷ 84 ∷ 89 ∷ 85 ∷ 73 ∷ 79 ∷ 80 ∷ 123 ∷ 125 ∷ 10 ∷ 0 ∷ 65 ∷ 83 ∷ 68 ∷ 70 ∷ 71 ∷ 72 ∷ 74 ∷ 75 ∷ 76
    ∷ 58 ∷ 34 ∷ 126 ∷ 0 ∷ 124 ∷ 90 ∷ 88 ∷ 67 ∷ 86 ∷ 66 ∷ 78 ∷ 77 ∷ 60 ∷ 62 ∷ 63 ∷ 0 ∷ 42 ∷ 0 ∷ 32
    ∷ []

-- The release of a key: `base` is the scan code without its top bit.
unfoldable pub key_released : ℕ → Keyboard → Keyboard
key_released base k =
    if (base == 0x2A) || (base == 0x36)
    then record k { shift_down = false }
    else if base == 0x1D
    then record k { ctrl_down = false }
    else if base == 0x38
    then record k { alt_down = false }
    else k

-- `up - 'a' + 'A'` for a small letter
unfoldable pub upper : ℕ → ℕ
upper c = if leb 97 c && leb c 122 then c - 97 + 65 else c

-- What a key that is not a modifier puts into the buffer; `out` is its character.
unfoldable pub key_typed : (out : ℕ) → Keyboard → Keyboard
key_typed out k =
    if out == 0
    then k
    else if k.ctrl_down
    then (if leb 65 (upper out) && leb (upper out) 90
        then buffer_put (upper out) (buffer_put 94 k)
        else k)
    else if k.alt_down
    then k
    else buffer_put out k

unfoldable pub key_pressed : (sc : ℕ) → Keyboard → Keyboard
key_pressed sc k =
    if (sc == 0x2A) || (sc == 0x36)
    then record k { shift_down = true }
    else if sc == 0x1D
    then record k { ctrl_down = true }
    else if sc == 0x38
    then record k { alt_down = true }
    else key_typed
        (if ltb sc 128
          then entry (if k.shift_down then scancode_map_shift else scancode_map) sc
          else 0)
        k

unfoldable pub kbd_process : (sc_payload : ℕ) → Keyboard → Keyboard
kbd_process sc_payload k =
    let sc = sc_payload % 2 ^ 8 in
    if leb 0x80 sc then key_released (sc % 0x80) k else key_pressed sc k

-- `kbd_isr`, with what it reads from ports 0x64 and 0x60.
unfoldable pub kbd_isr : (status code : ℕ) → Irqs → Irqs
kbd_isr status code s =
    if status % 2 == 0
    then s
    else if code == 0
    then s
    else (interrupt_raise (33 * 2 ^ 16 + code % 2 ^ 16) s).1

-- `keyboard_init`, with the addresses of its two handlers.
unfoldable pub keyboard_init : (isr process : ℕ) → Keyboard × Irqs → Keyboard × Irqs
keyboard_init isr process (k, s) =
    let (status, s1) = interrupt_register 33 isr 0 s in
    let k1 : Keyboard = elim status [ ok ↦ record k { irq_enabled = true } | failed ↦ k ] in
    (k1, (interrupt_register 33 process 0 s1).1)

unfoldable pub put_all : List ℕ → Keyboard → Keyboard
put_all [] k = k
put_all (c ∷ cs) k = put_all cs (buffer_put c k)

-- What one poll finds: the two ports, and the characters that `serial_getc_nonblock` gives before
-- it gives 0.
pub record Input : Type 0 where
  pub status : ℕ
  pub code : ℕ
  pub serial : List ℕ

unfoldable pub keyboard_poll : Input → Keyboard × Irqs → Keyboard × Irqs
keyboard_poll i (k, s) =
    (put_all i.serial k, (if k.irq_enabled then s else kbd_isr i.status i.code s))

-- `keyboard_getchar`, one input for each poll; `none` if the inputs are used up first.
unfoldable pub keyboard_getchar : List Input → Keyboard × Irqs → Option (ℕ × (Keyboard × Irqs))
keyboard_getchar [] (k, s) =
    let (c, k1) = buffer_get k in if c == 0 then none else some (c, (k1, s))
keyboard_getchar (i ∷ is) (k, s) =
    let (c, k1) = buffer_get k in
    let rest = keyboard_getchar is (keyboard_poll i (k1, s)) in
    if c == 0 then rest else some (c, (k1, s))

unfoldable pub keyboard_getchar_poll : Input → Keyboard × Irqs → ℕ × (Keyboard × Irqs)
keyboard_getchar_poll i w =
    let (k, s) = keyboard_poll i w in let (c, k1) = buffer_get k in (c, (k1, s))
