-- ===== src/Interrupt/Queue.antt =====
-- The event queue of src/kernel/interrupt/interrupt.c against a bounded first-in first-out queue.
use lite_core.Prelude.{
  ℕ, zero, suc, ◌+◌, ◌-◌, ◌%◌, ◌≤◌, ◌<◌, ◌≡◌, ◌≢◌, inl, inr, Bool, true, false, Option, none, some,
  List, [], ◌∷◌, ◌++◌, arith, if◌then◌else◌, leb, ◌==◌, refl, ap, ap₂, ◌∙◌, sym, Bool-cases, length,
  update, add32,
}
use native.Mathlib.Nat.{mod-eq_of_lt}
use lite_core.Prelude.Ring.{window, length-window, window_snoc, window-update, window-mod}
use lite_core.Interrupt.{Fifo, fifo_push, fifo_pop, fifo_capacity}

-- The indices lie in the buffer, and the tail is `count` slots behind the head.
pub record IsValid (f : Fifo) : Type 0 where
  pub head : f.head < fifo_capacity
  pub count : f.count ≤ fifo_capacity
  pub tail : f.tail ≡ (f.head + f.count) % fifo_capacity

-- The events in the queue, oldest first.
abbrev pub contents : Fifo → List ℕ
contents f = window f.buf fifo_capacity f.head f.count

-- The queue that a client sees.
unfoldable pub push : List ℕ → ℕ → Bool × List ℕ
push q v = if leb fifo_capacity (length q) then (false, q) else (true, q ++ (v ∷ []))

unfoldable pub pop : List ℕ → Option ℕ × List ℕ
pop [] = (none, [])
pop (v ∷ q) = (some v, q)

slots_apart : (h i n : ℕ) → i < n → n < 64 → (h + i) % 64 ≢ (h + n) % 64
slots_apart h i n lt small = omega arith

push_window :
    (buf : ℕ → ℕ) (h n v : ℕ)
    → n < 64
    → window (update buf ((h + n) % 64) v) 64 h (suc n) ≡ window buf 64 h n ++ (v ∷ [])
push_window buf h n v small =
    window_snoc (update buf ((h + n) % 64) v) 64 h n
    ∙ ap₂ (λ l x. l ++ (x ∷ []))
        (window-update buf 64 ((h + n) % 64) v h n (λ i lt. slots_apart h i n lt small))
        (ground arith)

-- On a valid queue, `fifo_push` does what `push` does to its contents, where a full queue drops
-- the event, and keeps it valid.
pub fifo_push_refines :
    (f : Fifo) (v : ℕ)
    → IsValid f
    → IsValid (fifo_push f v).1
      × ((fifo_push f v).0 ≡ (push (contents f) v).0)
      × (contents (fifo_push f v).1 ≡ (push (contents f) v).1)
unfolding fifo_push push
fifo_push_refines f v k = elim (Bool-cases (leb 64 f.count)) [
  | inl full ↦ rw (length-window f.buf 64 f.head f.count, full) (k, refl, refl)
  | inr room ↦
      let e = push_window f.buf f.head f.count v (ground arith) in
      let n : add32 f.count 1 ≡ suc f.count = omega (arith, k) in
      rw (length-window f.buf 64 f.head f.count, room)
        (
          record { head = k.head; count = ground (arith, k); tail = omega (arith, k) },
          refl,
          ap₂ (λ t c. window (update f.buf t v) 64 f.head c) k.tail n ∙ e,
        )
]

pop_window :
    (buf : ℕ → ℕ) (h n : ℕ)
    → n ≢ 0
    → h < 64
    → window buf 64 h n ≡ buf h ∷ window buf 64 ((h + 1) % 64) (n - 1)
pop_window buf h zero ne lt = absurd (ne refl)
pop_window buf h (suc n) ne lt = ap₂ ◌∷◌ (ap buf (mod-eq_of_lt lt)) (
    window-mod buf 64 (h + 1) ((h + 1) % 64) n (omega arith)
    ∙ ap (window buf 64 ((h + 1) % 64)) (omega arith))

-- On a valid queue, `fifo_pop` takes what `pop` takes from its contents, and keeps it valid.
pub fifo_pop_refines :
    (f : Fifo)
    → IsValid f
    → IsValid (fifo_pop f).1
      × ((fifo_pop f).0 ≡ (pop (contents f)).0)
      × (contents (fifo_pop f).1 ≡ (pop (contents f)).1)
unfolding fifo_pop pop
fifo_pop_refines f k = elim (Bool-cases (f.count == 0)) [
  | inl empty ↦
      let none_left : f.count ≡ 0 = ground arith in
      rw empty (
        k,
        sym (ap (λ c. (pop (window f.buf 64 f.head c)).0) none_left),
        ap (λ c. window f.buf 64 f.head c) none_left
            ∙ sym (ap (λ c. (pop (window f.buf 64 f.head c)).1) none_left),
      )
  | inr some_left ↦
      let nonzero : f.count ≢ 0 = ground arith in
      let e = pop_window f.buf f.head f.count nonzero k.head in
      let next : add32 f.head 1 % 64 ≡ (f.head + 1) % 64 = omega (arith, k) in
      rw (some_left, e)
        (
          record {
            head = omega arith;
            count = omega (arith, k);
            tail = k.tail ∙ omega (arith, k.head);
          },
          refl,
          rw next refl,
        )
]

-- On a valid queue, `fifo_push` does what `push` does to its contents, where a full queue drops
-- the event, `fifo_pop` takes what `pop` takes from them, and both keep the queue valid.
pub fifo_refines :
    (f : Fifo) (v : ℕ)
    → IsValid f
    → (IsValid (fifo_push f v).1
        × ((fifo_push f v).0 ≡ (push (contents f) v).0)
        × (contents (fifo_push f v).1 ≡ (push (contents f) v).1))
      × (IsValid (fifo_pop f).1
          × ((fifo_pop f).0 ≡ (pop (contents f)).0)
          × (contents (fifo_pop f).1 ≡ (pop (contents f)).1))
fifo_refines f v k = (fifo_push_refines f v k, fifo_pop_refines f k)
