-- ===== src/Interrupt/Tests.antt =====
-- Runs of the queue and the table, and their theorems at small inputs.
use lite_core.Prelude.{
  ℕ, ◌≡◌, ◌≤◌, ◌≢◌, refl, List, [], ◌∷◌, some, true, arith, if◌then◌else◌, ◌==◌,
}
use lite_core.Interrupt.{
  Fifo, Irqs, ok, fifo_push, fifo_pop, interrupt_register, interrupt_unregister,
  interrupt_dispatch_all,
}
use lite_core.Interrupt.Queue.{IsValid, contents, push, pop, fifo_refines}
use lite_core.Interrupt.Table.{handlers, register, handlers_refine}
use lite_core.Interrupt.Dispatch.{serve_all, interrupt_dispatch_all-serve_all}

-- Two events that go round the end of the buffer.
abbrev wrapped : Fifo
wrapped = record {
  buf = λ i. if i == 63 then 0x210001 else 0x210002;
  head = 63;
  tail = 1;
  count = 2;
}

wrapped-IsValid : IsValid wrapped
wrapped-IsValid = record { head = omega arith; count = omega arith; tail = refl }

-- Vector 33 has handler 7 with context 9.
abbrev irqs : Irqs
irqs = record {
  table = λ irq slot. if irq == 33 then (if slot == 0 then 7 else 0) else 0;
  ctx = λ irq slot. if irq == 33 then (if slot == 0 then 9 else 0) else 0;
  count = λ irq. if irq == 33 then 1 else 0;
  fifo = wrapped;
}

-- A handler that notes its payload.
abbrev note : ℕ → ℕ → ℕ → List ℕ → List ℕ
note handler payload context seen = payload ∷ seen

abbrev call : ℕ → ℕ → ℕ → Irqs × List ℕ → Irqs × List ℕ
call handler payload context (s, seen) = (s, note handler payload context seen)

irqs_small : (vec : ℕ) → irqs.count vec ≤ 255
irqs_small vec = ground arith

interrupt_dispatch_all-serve_all_example :
    (f : Fifo) × (interrupt_dispatch_all call 3 (irqs, [])
      ≡ some (record irqs { fifo = f }, 2 ∷ 1 ∷ []))
    × IsValid f
    × (contents f ≡ [])
unfolding serve_all
interrupt_dispatch_all-serve_all_example =
    interrupt_dispatch_all-serve_all note call (λ h p c w. refl) 3 irqs []
      (0x210001 ∷ 0x210002 ∷ []) wrapped-IsValid irqs_small refl (omega arith)

fifo_refines_example :
    (IsValid (fifo_push wrapped 5).1
      × ((fifo_push wrapped 5).0 ≡ true)
      × (contents (fifo_push wrapped 5).1 ≡ 0x210001 ∷ 0x210002 ∷ 5 ∷ []))
    × (IsValid (fifo_pop wrapped).1
        × ((fifo_pop wrapped).0 ≡ some 0x210001)
        × (contents (fifo_pop wrapped).1 ≡ 0x210002 ∷ []))
unfolding push pop
fifo_refines_example = fifo_refines wrapped 5 wrapped-IsValid

handlers_refine_example :
    (let (status, t) = interrupt_register 33 8 0 irqs in
      (status ≡ ok)
      × (handlers t 33 ≡ (7, 9) ∷ (8, 0) ∷ [])
      × (t.count 33 ≤ 4)
      × (t.fifo ≡ wrapped)
      × ((other : ℕ) → other ≢ 33 → handlers t other ≡ handlers irqs other))
    × (let (status, t) = interrupt_unregister 33 irqs in
        (status ≡ ok)
        × (handlers t 33 ≡ [])
        × (t.fifo ≡ wrapped)
        × ((other : ℕ) → other ≢ 33 → handlers t other ≡ handlers irqs other))
unfolding register
handlers_refine_example = handlers_refine 33 8 0 irqs (omega arith) (omega arith)
