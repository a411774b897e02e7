-- ===== src/Keyboard/Buffer.antt =====
-- The character ring of src/kernel/device/keyboard.c against a queue of at most 255 characters.
use lite_core.Prelude.{
  ℕ, zero, suc, ◌+◌, ◌-◌, ◌%◌, ◌<◌, ◌≡◌, ◌≢◌, inl, inr, true, false, List, [], ◌∷◌, ◌++◌, arith,
  if◌then◌else◌, leb, ◌==◌, refl, ap, ap₂, ◌∙◌, Bool-cases, length, update,
}
use native.Mathlib.Nat.{mod-eq_of_lt}
use lite_core.Prelude.Ring.{window, length-window, window_snoc, window-update, window-mod}
use lite_core.Keyboard.{Keyboard, buffer_put, buffer_get}

-- Both positions lie in the buffer.
pub record IsValid (k : Keyboard) : Type 0 where
  pub read : k.buffer_read_pos < 256
  pub write : k.buffer_write_pos < 256

abbrev pub filled : Keyboard → ℕ
filled k = (k.buffer_write_pos + 256 - k.buffer_read_pos) % 256

-- The characters in the buffer, oldest first.
abbrev pub contents : Keyboard → List ℕ
contents k = window k.key_buffer 256 k.buffer_read_pos (filled k)

-- The queue that a client sees.
unfoldable pub put : ℕ → List ℕ → List ℕ
put c q = if leb 255 (length q) then q else q ++ (c ∷ [])

unfoldable pub next : List ℕ → ℕ × List ℕ
next [] = (0, [])
next (c ∷ q) = (c, q)

put_window :
    (buf : ℕ → ℕ) (r w n c : ℕ)
    → w ≡ (r + n) % 256
    → n < 255
    → window (update buf w c) 256 r (suc n) ≡ window buf 256 r n ++ (c ∷ [])
put_window buf r w n c at small =
    window_snoc (update buf w c) 256 r n
    ∙ ap₂ (λ l x. l ++ (x ∷ [])) (window-update buf 256 w c r n (λ i lt. omega arith))
        (ground arith)

-- With both positions in the buffer, `buffer_put` does what `put` does to the characters, where a
-- buffer of 255 drops the new one, and keeps the positions in the buffer.
pub buffer_put_refines :
    (c : ℕ) (k : Keyboard)
    → IsValid k
    → IsValid (buffer_put c k) × (contents (buffer_put c k) ≡ put c (contents k))
unfolding buffer_put put
buffer_put_refines c k v = elim (Bool-cases ((k.buffer_write_pos + 1) % 256 == k.buffer_read_pos)) [
  | inl full ↦
      let many : leb 255 (filled k) ≡ true = ground (arith, v.read, v.write) in
      rw (length-window k.key_buffer 256 k.buffer_read_pos (filled k), full, many) (v, refl)
  | inr room ↦
      let few : leb 255 (filled k) ≡ false = ground (arith, v.read, v.write) in
      let more : ((k.buffer_write_pos + 1) % 256 + 256 - k.buffer_read_pos) % 256 ≡ suc (filled k) =
        ground (arith, v.read, v.write) in
      rw (length-window k.key_buffer 256 k.buffer_read_pos (filled k), room, few, more)
        (
          record { read = v.read; write = omega arith },
          put_window k.key_buffer k.buffer_read_pos k.buffer_write_pos (filled k) c
              (omega (arith, v.read, v.write)) (ground arith),
        )
]

get_window :
    (buf : ℕ → ℕ) (r n : ℕ)
    → n ≢ 0
    → r < 256
    → window buf 256 r n ≡ buf r ∷ window buf 256 ((r + 1) % 256) (n - 1)
get_window buf r zero ne lt = absurd (ne refl)
get_window buf r (suc n) ne lt = ap₂ ◌∷◌ (ap buf (mod-eq_of_lt lt)) (
    window-mod buf 256 (r + 1) ((r + 1) % 256) n (omega arith)
    ∙ ap (window buf 256 ((r + 1) % 256)) (omega arith))

-- With both positions in the buffer, `buffer_get` takes what `next` takes, 0 from an empty buffer,
-- and keeps the positions in the buffer.
pub buffer_get_refines :
    (k : Keyboard)
    → IsValid k
    → IsValid (buffer_get k).1
      × ((buffer_get k).0 ≡ (next (contents k)).0)
      × (contents (buffer_get k).1 ≡ (next (contents k)).1)
unfolding buffer_get next
buffer_get_refines k v = elim (Bool-cases (k.buffer_read_pos == k.buffer_write_pos)) [
  | inl empty ↦
      let none_left : filled k ≡ 0 = ground (arith, v.read) in rw (empty, none_left) (v, refl, refl)
  | inr some_left ↦
      let ne : filled k ≢ 0 = ground (arith, v.read, v.write) in
      let less : (k.buffer_write_pos + 256 - (k.buffer_read_pos + 1) % 256) % 256 ≡ filled k - 1 =
        ground (arith, v.read, v.write) in
      rw (some_left, get_window k.key_buffer k.buffer_read_pos (filled k) ne v.read, less)
        (record { read = omega arith; write = v.write }, refl, refl)
]

-- With both positions in the buffer, `buffer_put` does what `put` does to the characters, where a
-- buffer of 255 drops the new one, `buffer_get` takes what `next` takes, 0 from an empty buffer,
-- and both keep the positions in the buffer.
pub buffer_refines :
    (c : ℕ) (k : Keyboard)
    → IsValid k
    → (IsValid (buffer_put c k) × (contents (buffer_put c k) ≡ put c (contents k)))
      × (IsValid (buffer_get k).1
          × ((buffer_get k).0 ≡ (next (contents k)).0)
          × (contents (buffer_get k).1 ≡ (next (contents k)).1))
buffer_refines c k v = (buffer_put_refines c k v, buffer_get_refines k v)
