-- ===== src/Interrupt.antt =====
-- The event queue and the handler table of src/kernel/interrupt/interrupt.c. A handler is a number,
-- 0 for NULL; what it does is the parameter `call`. Each function that turns interrupts off while
-- it works is one step.

pub mod Queue
pub mod Table
pub mod Dispatch
mod Tests
use lite_core.Prelude.{
  ℕ, zero, suc, ◌+◌, ◌-◌, ◌*◌, ◌/◌, ◌%◌, ◌^◌, Bool, true, false, ◌&&◌, Option, none, some,
  if◌then◌else◌, ltb, leb, ◌==◌, not, update, add32, u8,
}

abbrev pub max_irqs : ℕ
max_irqs = 256

abbrev pub max_handlers_per_irq : ℕ
max_handlers_per_irq = 4

abbrev pub fifo_capacity : ℕ
fifo_capacity = 64

-- `fifo_t`
pub record Fifo : Type 0 where
  pub buf : ℕ → ℕ
  pub head : ℕ
  pub tail : ℕ
  pub count : ℕ

unfoldable pub fifo_init : Fifo → Fifo
fifo_init f = record f { head = 0; tail = 0; count = 0 }

abbrev pub fifo_is_full : Fifo → Bool
fifo_is_full f = leb fifo_capacity f.count

abbrev pub fifo_is_empty : Fifo → Bool
fifo_is_empty f = f.count == 0

-- The result says whether there was room.
unfoldable pub fifo_push : Fifo → ℕ → Bool × Fifo
fifo_push f v = if fifo_is_full f then (false, f) else (
  true,
  record f {
    buf = update f.buf f.tail v;
    tail = add32 f.tail 1 % fifo_capacity;
    count = add32 f.count 1;
  },
)

-- `none` on an empty queue.
unfoldable pub fifo_pop : Fifo → Option ℕ × Fifo
fifo_pop f = if fifo_is_empty f then (none, f) else (
  some (f.buf f.head),
  record f { head = add32 f.head 1 % fifo_capacity; count = f.count - 1 },
)

-- The tables, by vector and slot, and the queue.
pub record Irqs : Type 0 where
  pub table : ℕ → ℕ → ℕ
  pub ctx : ℕ → ℕ → ℕ
  pub count : ℕ → ℕ
  pub fifo : Fifo

abbrev pub set2 : (ℕ → ℕ → ℕ) → ℕ → ℕ → ℕ → ℕ → ℕ → ℕ
set2 t irq slot v i = if i == irq then update (t i) slot v else t i

-- The scan for the same handler and context, over the slots below `n`.
unfoldable pub registered : Irqs → (irq handler context n : ℕ) → Bool
registered s irq handler context zero = false
registered s irq handler context (suc n) =
    let rest = registered s irq handler context n in
    if (s.table irq n == handler) && (s.ctx irq n == context) then true else rest

-- The result is 0 or -1 in the source.
pub data Status : Type 0 where
  ok failed : Status

-- The writes to the first free slot.
unfoldable pub add_handler : (irq handler context : ℕ) → Irqs → Irqs
add_handler irq handler context s = record s {
  table = set2 s.table irq (s.count irq) handler;
  ctx = set2 s.ctx irq (s.count irq) context;
  count = update s.count irq (u8 (s.count irq + 1));
}

unfoldable pub interrupt_register : (irq handler context : ℕ) → Irqs → Status × Irqs
unfolding registered
interrupt_register irq handler context s =
    if leb max_irqs irq
    then (failed, s)
    else if registered s irq handler context (s.count irq)
    then (ok, s)
    else if leb max_handlers_per_irq (s.count irq)
    then (failed, s)
    else (ok, add_handler irq handler context s)

-- The loop that clears the slots below `n`.
unfoldable pub clear_slots : (irq n : ℕ) → Irqs → Irqs
clear_slots irq zero s = s
clear_slots irq (suc n) s =
    clear_slots irq n (record s { table = set2 s.table irq n 0; ctx = set2 s.ctx irq n 0 })

unfoldable pub interrupt_unregister : ℕ → Irqs → Status × Irqs
unfolding clear_slots
interrupt_unregister irq s =
    if leb max_irqs irq
    then (failed, s)
    else (let cleared = clear_slots irq (s.count irq) s in
        (ok, record cleared { count = update cleared.count irq 0 }))

-- `interrupt_raise`: whether the event found room.
unfoldable pub interrupt_raise : ℕ → Irqs → Bool × Irqs
unfolding fifo_push
interrupt_raise event s = let (res, f) = fifo_push s.fifo event in (res, record s { fifo = f })

unfoldable pub interrupt_init : Irqs → Irqs
unfolding fifo_init
interrupt_init s = record {
  table =
      λ irq slot. if ltb irq max_irqs && ltb slot max_handlers_per_irq then 0 else s.table irq slot;
  ctx = λ irq slot. if ltb irq max_irqs && ltb slot max_handlers_per_irq then 0 else s.ctx irq slot;
  count = λ irq. if ltb irq max_irqs then 0 else s.count irq;
  fifo = fifo_init s.fifo;
}

abbrev pub vector_of : ℕ → ℕ
vector_of event = event / 2 ^ 16 % 2 ^ 16

abbrev pub payload_of : ℕ → ℕ
payload_of event = event % 2 ^ 16

-- `call handler payload context` on the tables and the rest of the machine.
module _ {D : Type 0} (call : (handler payload context : ℕ) → Irqs × D → Irqs × D) where
  -- The loop over the handlers from slot `i` on; `irq_count` is read again in each round. It is a
  -- `uint8_t`, so 255 rounds are enough.
  unfoldable pub call_handlers : ℕ → (vec payload i : ℕ) → Irqs × D → Irqs × D
  call_handlers zero vec payload i w = w
  call_handlers (suc fuel) vec payload i w =
      let called =
        if w.0.table vec i == 0 then w else call (w.0.table vec i) payload (w.0.ctx vec i) w in
      let rest = call_handlers fuel vec payload (i + 1) called in
      if ltb i (w.0.count vec) then rest else w

  -- What `interrupt_dispatch_one` does once it has taken an event or found none.
  unfoldable pub deliver : Option ℕ → Irqs × D → Bool × (Irqs × D)
  deliver none w = (false, w)
  deliver (some evt) w =
      if ltb (vector_of evt) max_irqs && ltb 0 (w.0.count (vector_of evt))
      then (true, call_handlers 255 (vector_of evt) (payload_of evt) 0 w)
      else (true, w)

  -- `interrupt_dispatch_one`: whether there was an event.
  unfoldable pub interrupt_dispatch_one : Irqs × D → Bool × (Irqs × D)
  interrupt_dispatch_one (s, d) =
      let (popped, f) = fifo_pop s.fifo in deliver popped (record s { fifo = f }, d)

  -- `interrupt_dispatch_all`, on fuel: handlers may raise events without end.
  unfoldable pub interrupt_dispatch_all : ℕ → Irqs × D → Option (Irqs × D)
  interrupt_dispatch_all zero w = none
  interrupt_dispatch_all (suc fuel) w =
      let (more, w') = interrupt_dispatch_one w in
      elim more [ true ↦ interrupt_dispatch_all fuel w' | false ↦ some w' ]
