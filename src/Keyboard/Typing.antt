-- ===== src/Keyboard/Typing.antt =====
-- What the keys put into the buffer of src/kernel/device/keyboard.c, and what clients read.
use lite_core.Prelude.{
  ℕ, ◌%◌, ◌^◌, ◌≤◌, ◌<◌, ◌≡◌, inl, inr, Bool, ◌&&◌, ◌||◌, not, List, [], ◌∷◌, arith, if◌then◌else◌,
  leb, ltb, ◌==◌, refl, ap, ◌∙◌, Bool-cases,
}
use lite_core.Keyboard.{
  Keyboard, buffer_put, entry, scancode_map, scancode_map_shift, key_released, key_pressed,
  key_typed, kbd_process, upper, put_all,
}
use lite_core.Keyboard.Buffer.{IsValid, contents, put, buffer_put_refines}

-- The keyboard as its clients see it: the characters and the modifiers.
pub record Keys : Type 0 where
  pub chars : List ℕ
  pub shift : Bool
  pub ctrl : Bool
  pub alt : Bool

abbrev pub view : Keyboard → Keys
view k = record { chars = contents k; shift = k.shift_down; ctrl = k.ctrl_down; alt = k.alt_down }

-- A modifier goes down and up with its key: `code` is the key, `down` whether it was pressed.
unfoldable pub hold : (keys : ℕ → Bool) → (code : ℕ) → (down before : Bool) → Bool
hold keys code down before = if keys code then down else before

abbrev pub is_shift : ℕ → Bool
is_shift code = (code == 0x2A) || (code == 0x36)

abbrev pub is_modifier : ℕ → Bool
is_modifier code = is_shift code || (code == 0x1D) || (code == 0x38)

-- The characters that a key gives while the modifiers are down.
unfoldable pub typed : (code : ℕ) → (shift ctrl alt : Bool) → List ℕ
typed code shift ctrl alt =
    let out = entry (if shift then scancode_map_shift else scancode_map) code in
    if out == 0
    then []
    else if ctrl
    then (if leb 65 (upper out) && leb (upper out) 90 then 94 ∷ upper out ∷ [] else [])
    else if alt
    then []
    else out ∷ []

unfoldable pub put_list : List ℕ → List ℕ → List ℕ
put_list [] q = q
put_list (c ∷ cs) q = put_list cs (put c q)

-- What the byte `sc` does to the keys.
unfoldable pub process : ℕ → Keys → Keys
process sc s =
    let code = sc % 128 in
    let down = ltb sc 128 in
    record {
      chars =
          if down && not (is_modifier code)
          then put_list (typed code s.shift s.ctrl s.alt) s.chars
          else s.chars;
      shift = hold is_shift code down s.shift;
      ctrl = hold (λ c. c == 0x1D) code down s.ctrl;
      alt = hold (λ c. c == 0x38) code down s.alt;
    }

pub put_all-put_list :
    (cs : List ℕ) (k : Keyboard)
    → IsValid k
    → IsValid (put_all cs k) × (contents (put_all cs k) ≡ put_list cs (contents k))
unfolding put_all put_list
put_all-put_list [] k v = (v, refl)
put_all-put_list (c ∷ cs) k v =
    let (v', e) = buffer_put_refines c k v in
    let (v'', e') = put_all-put_list cs (buffer_put c k) v' in (v'', e' ∙ ap (put_list cs) e)

buffer_put-modifiers :
    (c : ℕ) (k : Keyboard)
    → ((buffer_put c k).shift_down ≡ k.shift_down)
      × ((buffer_put c k).ctrl_down ≡ k.ctrl_down)
      × ((buffer_put c k).alt_down ≡ k.alt_down)
unfolding buffer_put
buffer_put-modifiers c k = ground arith

-- `put_all` changes the buffer only.
put_all-modifiers :
    (cs : List ℕ) (k : Keyboard)
    → ((put_all cs k).shift_down ≡ k.shift_down)
      × ((put_all cs k).ctrl_down ≡ k.ctrl_down)
      × ((put_all cs k).alt_down ≡ k.alt_down)
unfolding put_all
put_all-modifiers [] k = (refl, refl, refl)
put_all-modifiers (c ∷ cs) k =
    let (a, b, d) = put_all-modifiers cs (buffer_put c k) in
    let kept = buffer_put-modifiers c k in (a ∙ kept.0, b ∙ kept.1, d ∙ kept.2)

-- A key that is no modifier puts its characters.
key_typed-put_all :
    (code : ℕ) (k : Keyboard)
    → key_typed (entry (if k.shift_down then scancode_map_shift else scancode_map) code) k
      ≡ put_all (typed code k.shift_down k.ctrl_down k.alt_down) k
unfolding key_typed typed put_all
key_typed-put_all code k = ground arith

-- The keyboard is valid after the byte and shows what `process` says.
abbrev pub Processed : ℕ → Keyboard → Keyboard → Type 0
Processed sc k g =
    IsValid g
    × (contents g ≡ (process sc (view k)).chars)
    × (g.shift_down ≡ (process sc (view k)).shift)
    × (g.ctrl_down ≡ (process sc (view k)).ctrl)
    × (g.alt_down ≡ (process sc (view k)).alt)

key_released-Processed :
    (sc : ℕ) (k : Keyboard) → IsValid k → 128 ≤ sc → Processed sc k (key_released (sc % 128) k)
unfolding key_released process hold
key_released-Processed sc k v up = ground (arith, v)

key_pressed-Processed :
    (sc : ℕ) (k : Keyboard) → IsValid k → sc < 128 → Processed sc k (key_pressed sc k)
unfolding key_pressed process hold
key_pressed-Processed sc k v low =
    let chars = typed sc k.shift_down k.ctrl_down k.alt_down in
    let (v', e) = put_all-put_list chars k v in
    let (a, b, c) = put_all-modifiers chars k in
    ground (arith, v, v', e, a, b, c, key_typed-put_all sc k)

-- With both positions in the buffer, `kbd_process` does what `process` does with the low byte of
-- its payload: a modifier goes down and up with its key, and another key puts its characters when
-- it goes down. A full buffer drops them.
pub kbd_process_refines :
    (sc_payload : ℕ) (k : Keyboard)
    → IsValid k
    → Processed (sc_payload % 2 ^ 8) k (kbd_process sc_payload k)
unfolding kbd_process
kbd_process_refines sc_payload k v = elim (Bool-cases (leb 128 (sc_payload % 2 ^ 8))) [
  | inl up ↦ rw up (key_released-Processed (sc_payload % 2 ^ 8) k v (ground arith))
  | inr down ↦ rw down (key_pressed-Processed (sc_payload % 2 ^ 8) k v (ground arith))
]
