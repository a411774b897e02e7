-- ===== src/Interrupt/Table.antt =====
-- The handler table of src/kernel/interrupt/interrupt.c against a list of handlers for each vector.
use lite_core.Prelude.{
  ℕ, zero, suc, ◌+◌, ◌≤◌, ◌<◌, ◌≡◌, ◌≢◌, inl, inr, Bool, false, ◌&&◌, ◌||◌, List, [], ◌∷◌, ◌++◌,
  arith, if◌then◌else◌, leb, ◌==◌, refl, ap, ap₂, ◌∙◌, Bool-cases, length, update,
}
use lite_core.Interrupt.{
  Irqs, Status, ok, failed, registered, interrupt_register, add_handler, interrupt_unregister,
  clear_slots, set2, max_irqs, max_handlers_per_irq,
}

-- The `n` slots of a vector from `i` on: handler and context.
abbrev pub slots : Irqs → (irq i n : ℕ) → List (ℕ × ℕ)
slots s irq i zero = []
slots s irq i (suc n) = (s.table irq i, s.ctx irq i) ∷ slots s irq (i + 1) n

-- The handlers of a vector, in the order in which they were registered.
abbrev pub handlers : Irqs → ℕ → List (ℕ × ℕ)
handlers s irq = slots s irq 0 (s.count irq)

unfoldable pub holds : List (ℕ × ℕ) → (handler context : ℕ) → Bool
holds [] handler context = false
holds ((h, c) ∷ l) handler context = (h == handler) && (c == context) || holds l handler context

-- What registering means for the list.
unfoldable pub register : (handler context : ℕ) → List (ℕ × ℕ) → Status × List (ℕ × ℕ)
unfolding holds
register handler context l =
    if holds l handler context
    then (ok, l)
    else if leb max_handlers_per_irq (length l)
    then (failed, l)
    else (ok, l ++ ((handler, context) ∷ []))

length-slots : (s : Irqs) (irq i n : ℕ) → length (slots s irq i n) ≡ n
length-slots s irq i zero = refl
length-slots s irq i (suc n) = ap suc (length-slots s irq (i + 1) n)

slots_snoc :
    (s : Irqs) (irq i n : ℕ)
    → slots s irq i (suc n) ≡ slots s irq i n ++ ((s.table irq (i + n), s.ctx irq (i + n)) ∷ [])
slots_snoc s irq i zero = ap (λ k. (s.table irq k, s.ctx irq k) ∷ []) (omega arith)
slots_snoc s irq i (suc n) =
    ap (λ l. (s.table irq i, s.ctx irq i) ∷ l)
      (slots_snoc s irq (i + 1) n
        ∙ ap (λ k. slots s irq (i + 1) n ++ ((s.table irq k, s.ctx irq k) ∷ [])) (omega arith))

-- Slots that two tables share.
pub slots_same :
    (s t : Irqs) (irq i n : ℕ)
    → ((j : ℕ) → j < i + n → (t.table irq j ≡ s.table irq j) × (t.ctx irq j ≡ s.ctx irq j))
    → slots t irq i n ≡ slots s irq i n
slots_same s t irq i zero same = refl
slots_same s t irq i (suc n) same =
    ap₂ ◌∷◌ (ap₂ (λ h c. (h, c)) (same i (omega arith)).0 (same i (omega arith)).1)
      (slots_same s t irq (i + 1) n (λ j lt. same j (omega arith)))

holds-snoc :
    (l : List (ℕ × ℕ)) (h c handler context : ℕ)
    → holds (l ++ ((h, c) ∷ [])) handler context
      ≡ ((h == handler) && (c == context) || holds l handler context)
unfolding holds
holds-snoc [] h c handler context = refl
holds-snoc ((k, d) ∷ l) h c handler context = ground (arith, holds-snoc l h c handler context)

registered-holds :
    (s : Irqs) (irq handler context n : ℕ)
    → registered s irq handler context n ≡ holds (slots s irq 0 n) handler context
unfolding registered
registered-holds s irq handler context zero = unfold holds in refl
registered-holds s irq handler context (suc n) =
    rw (slots_snoc s irq 0 n, holds-snoc, ← registered-holds s irq handler context n)
      (ground (arith, zero_add n))
  where
    zero_add : (n : ℕ) → 0 + n ≡ n
    zero_add n = omega arith

module _ (irq handler context : ℕ) (s : Irqs) where
  add_handler-slots :
      s.count irq ≤ 4
      → handlers (add_handler irq handler context s) irq
        ≡ handlers s irq ++ ((handler, context) ∷ [])
  add_handler-slots few =
      let t = add_handler irq handler context s in
      let n : t.count irq ≡ suc (s.count irq) = unfold add_handler in ground arith in
      ap (slots t irq 0) n
      ∙ slots_snoc t irq 0 (s.count irq)
      ∙ ap₂ (λ l x. l ++ (x ∷ []))
          (slots_same s t irq 0 (s.count irq)
            (λ j lt. unfold add_handler in (ground arith, ground arith)))
          (unfold add_handler in ap₂ (λ h c. (h, c)) (ground arith) (ground arith))

  add_handler-other :
      (other : ℕ)
      → other ≢ irq
      → handlers (add_handler irq handler context s) other ≡ handlers s other
  add_handler-other other ne =
      let t = add_handler irq handler context s in
      let n : t.count other ≡ s.count other = unfold add_handler in ground arith in
      ap (slots t other 0) n
      ∙ slots_same s t other 0 (s.count other)
          (λ j lt. unfold add_handler in (ground arith, ground arith))

-- For a vector below 256 with at most four handlers, `interrupt_register` does to the vector's
-- list what `register` does, keeps it at four at most, and leaves the other vectors and the queue
-- alone.
pub interrupt_register_refines :
    (irq handler context : ℕ) (s : Irqs)
    → irq < max_irqs
    → s.count irq ≤ max_handlers_per_irq
    → let (status, t) = interrupt_register irq handler context s in
      (status ≡ (register handler context (handlers s irq)).0)
      × (handlers t irq ≡ (register handler context (handlers s irq)).1)
      × (t.count irq ≤ max_handlers_per_irq)
      × (t.fifo ≡ s.fifo)
      × ((other : ℕ) → other ≢ irq → handlers t other ≡ handlers s other)
unfolding interrupt_register register
interrupt_register_refines irq handler context s lt few =
    let in_range : leb 256 irq ≡ false = ground arith in
    let scan = registered-holds s irq handler context (s.count irq) in
    let n = length-slots s irq 0 (s.count irq) in
    elim (Bool-cases (holds (handlers s irq) handler context)) [
      | inl old ↦ rw (in_range, scan, old) (refl, refl, few, refl, λ other ne. refl)
      | inr new ↦ elim (Bool-cases (leb 4 (s.count irq))) [
        | inl full ↦ rw (in_range, scan, new, n, full) (refl, refl, few, refl, λ other ne. refl)
        | inr room ↦
            rw (in_range, scan, new, n, room)
              (
                refl,
                add_handler-slots irq handler context s few,
                unfold add_handler in ground arith,
                unfold add_handler in refl,
                add_handler-other irq handler context s,
              )
      ]
    ]

clear_slots-fields :
    (irq n : ℕ) (s : Irqs)
    → ((clear_slots irq n s).count ≡ s.count)
      × ((clear_slots irq n s).fifo ≡ s.fifo)
      × ((other slot : ℕ)
          → other ≢ irq
          → ((clear_slots irq n s).table other slot ≡ s.table other slot)
            × ((clear_slots irq n s).ctx other slot ≡ s.ctx other slot))
unfolding clear_slots
clear_slots-fields irq zero s = (refl, refl, λ other slot ne. (refl, refl))
clear_slots-fields irq (suc n) s =
    let cleared : Irqs = record s { table = set2 s.table irq n 0; ctx = set2 s.ctx irq n 0 } in
    let (count, fifo, rest) = clear_slots-fields irq n cleared in
    (
      count,
      fifo,
      λ other slot ne.
          ((rest other slot ne).0 ∙ ground arith, (rest other slot ne).1 ∙ ground arith),
    )

-- For a vector below 256, `interrupt_unregister` succeeds, empties the vector's list, and leaves
-- the other vectors and the queue alone.
pub interrupt_unregister_refines :
    (irq : ℕ) (s : Irqs)
    → irq < max_irqs
    → let (status, t) = interrupt_unregister irq s in
      (status ≡ ok)
      × (handlers t irq ≡ [])
      × (t.fifo ≡ s.fifo)
      × ((other : ℕ) → other ≢ irq → handlers t other ≡ handlers s other)
unfolding interrupt_unregister
interrupt_unregister_refines irq s lt =
    let in_range : leb 256 irq ≡ false = ground arith in
    let (count, fifo, rest) = clear_slots-fields irq (s.count irq) s in
    let cleared : Irqs = clear_slots irq (s.count irq) s in
    let t : Irqs = record cleared { count = update cleared.count irq 0 } in
    let none_left : t.count irq ≡ 0 = ground arith in
    rw in_range (
      refl,
      ap (slots t irq 0) none_left,
      fifo,
      λ other ne.
          let at_other : t.count other ≡ cleared.count other = ground arith in
          let same : t.count other ≡ s.count other = at_other ∙ ap (λ f. f other) count in
          ap (slots t other 0) same
          ∙ slots_same s t other 0 (s.count other) (λ j lt. rest other j ne),
    )

-- For a vector below 256 with at most four handlers, `interrupt_register` does to the vector's
-- list what `register` does and keeps it at four at most, and `interrupt_unregister` succeeds and
-- empties it; both leave the other vectors and the queue alone.
pub handlers_refine :
    (irq handler context : ℕ) (s : Irqs)
    → irq < max_irqs
    → s.count irq ≤ max_handlers_per_irq
    → (let (status, t) = interrupt_register irq handler context s in
        (status ≡ (register handler context (handlers s irq)).0)
        × (handlers t irq ≡ (register handler context (handlers s irq)).1)
        × (t.count irq ≤ max_handlers_per_irq)
        × (t.fifo ≡ s.fifo)
        × ((other : ℕ) → other ≢ irq → handlers t other ≡ handlers s other))
      × (let (status, t) = interrupt_unregister irq s in
          (status ≡ ok)
          × (handlers t irq ≡ [])
          × (t.fifo ≡ s.fifo)
          × ((other : ℕ) → other ≢ irq → handlers t other ≡ handlers s other))
handlers_refine irq handler context s lt few =
    (interrupt_register_refines irq handler context s lt few, interrupt_unregister_refines irq s lt)
