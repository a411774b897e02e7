-- ===== src/Interrupt/Dispatch.antt =====
-- The delivery of events in src/kernel/interrupt/interrupt.c, for handlers that leave the tables and
-- the queue alone.
use lite_core.Prelude.{
  ℕ, zero, suc, ◌+◌, ◌≤◌, ◌<◌, ◌≡◌, inl, inr, Bool, true, false, List, [], ◌∷◌, Option, none, some,
  arith, if◌then◌else◌, ltb, ◌==◌, refl, ap, ◌∙◌, sym, Bool-cases, length,
}
use lite_core.Interrupt.{
  Fifo, Irqs, fifo_pop, call_handlers, deliver, interrupt_dispatch_one, interrupt_dispatch_all,
  max_irqs, vector_of, payload_of,
}
use lite_core.Interrupt.Queue.{IsValid, contents, fifo_pop_refines, pop}
use lite_core.Interrupt.Table.{slots, slots_same, handlers}

module _ {D : Type 0} (act : (handler payload context : ℕ) → D → D) where
  -- The handlers of a list, in order; a NULL handler is passed over.
  unfoldable pub run_all : List (ℕ × ℕ) → (payload : ℕ) → D → D
  run_all [] payload d = d
  run_all ((h, c) ∷ l) payload d = run_all l payload (if h == 0 then d else act h payload c d)

  -- What one event does to the rest of the machine.
  unfoldable pub serve : Irqs → (event : ℕ) → D → D
  unfolding run_all
  serve s event d =
      if ltb (vector_of event) max_irqs
      then run_all (handlers s (vector_of event)) (payload_of event) d
      else d

  unfoldable pub serve_all : Irqs → List ℕ → D → D
  unfolding serve
  serve_all s [] d = d
  serve_all s (event ∷ q) d = serve_all s q (serve s event d)

module _ {D : Type 0} (act : (handler payload context : ℕ) → D → D)
    (call : (handler payload context : ℕ) → Irqs × D → Irqs × D)
    (quiet : (handler payload context : ℕ) (w : Irqs × D)
      → call handler payload context w ≡ (w.0, act handler payload context w.1)) where
  -- What `interrupt_dispatch_all` does after one dispatch.
  abbrev after : ℕ → Bool × (Irqs × D) → Option (Irqs × D)
  after fuel (more, w) = elim more [ true ↦ interrupt_dispatch_all call fuel w | false ↦ some w ]

  called :
      (h payload c : ℕ) (s : Irqs) (d : D)
      → (if h == 0 then (s, d) else call h payload c (s, d))
        ≡ (s, (if h == 0 then d else act h payload c d))
  called h payload c s d = elim (Bool-cases (h == 0)) [
    | inl null ↦ rw null
    | inr live ↦ rw live (quiet h payload c (s, d))
  ]

  call_handlers-run_all :
      (fuel vec payload i n : ℕ) (s : Irqs) (d : D)
      → i + n ≡ s.count vec
      → n ≤ fuel
      → call_handlers call fuel vec payload i (s, d) ≡ (s, run_all act (slots s vec i n) payload d)
  unfolding call_handlers run_all
  call_handlers-run_all zero vec payload i zero s d e le = refl
  call_handlers-run_all zero vec payload i (suc n) s d e le = absurd (omega arith)
  call_handlers-run_all (suc f) vec payload i zero s d e le =
      let done : ltb i (s.count vec) ≡ false = ground arith in rw done
  call_handlers-run_all (suc f) vec payload i (suc n) s d e le =
      let more : ltb i (s.count vec) ≡ true = ground arith in
      let rest = λ (d' : D).
        call_handlers-run_all f vec payload (i + 1) n s d' (omega arith) (omega arith) in
      rw more (
        ap (call_handlers call f vec payload (i + 1))
          (called (s.table vec i) payload (s.ctx vec i) s d)
        ∙ rest _)

  -- An event does to the rest of the machine what `serve` says, and changes no table.
  deliver-serve :
      (evt : ℕ) (s : Irqs) (d : D)
      → s.count (vector_of evt) ≤ 255
      → deliver call (some evt) (s, d) ≡ (true, (s, serve act s evt d))
  unfolding deliver serve run_all
  deliver-serve evt s d small = elim (Bool-cases (ltb (vector_of evt) 256)) [
    | inr out ↦ rw out
    | inl in_range ↦ elim (Bool-cases (ltb 0 (s.count (vector_of evt)))) [
      | inl some_handler ↦
          rw (in_range, some_handler)
            (ap (λ w. (true, w))
              (call_handlers-run_all 255 (vector_of evt) (payload_of evt) 0
                (s.count (vector_of evt)) s d (omega arith) small))
      | inr no_handler ↦
          let none_there : s.count (vector_of evt) ≡ 0 = ground arith in
          rw (in_range, no_handler)
            (ap (λ n. (true, (s, run_all act (slots s (vector_of evt) 0 n) (payload_of evt) d)))
              (sym none_there))
    ]
  ]

  serve-fifo :
      (evt : ℕ) (s : Irqs) (f : Fifo) (d : D)
      → serve act (record s { fifo = f }) evt d ≡ serve act s evt d
  unfolding serve
  serve-fifo evt s f d =
      ap (λ l. if ltb (vector_of evt) 256 then run_all act l (payload_of evt) d else d)
        (slots_same s (record s { fifo = f }) (vector_of evt) 0 (s.count (vector_of evt))
          (λ j lt. (refl, refl)))

  serve_all-fifo :
      (q : List ℕ) (s : Irqs) (f : Fifo) (d : D)
      → serve_all act (record s { fifo = f }) q d ≡ serve_all act s q d
  unfolding serve_all
  serve_all-fifo [] s f d = refl
  serve_all-fifo (evt ∷ q) s f d =
      serve_all-fifo q s f (serve act (record s { fifo = f }) evt d)
      ∙ ap (serve_all act s q) (serve-fifo evt s f d)

  -- `interrupt_dispatch_one` takes the oldest event and serves it.
  dispatch_one-contents :
      (s : Irqs) (d : D) (q : List ℕ)
      → IsValid s.fifo
      → ((vec : ℕ) → s.count vec ≤ 255)
      → contents s.fifo ≡ q
      → let s' = record s { fifo = (fifo_pop s.fifo).1 } in
        interrupt_dispatch_one call (s, d)
        ≡ elim q [ [] ↦ (false, (s', d)) | evt ∷ rest ↦ (true, (s', serve act s evt d)) ]
  unfolding interrupt_dispatch_one pop
  dispatch_one-contents s d [] v small e =
      let popped : (fifo_pop s.fifo).0 ≡ none =
        (fifo_pop_refines s.fifo v).1 ∙ ap (λ l. (pop l).0) e in
      ap (λ p. deliver call p (record s { fifo = (fifo_pop s.fifo).1 }, d)) popped
      ∙ (unfold deliver in refl)
  dispatch_one-contents s d (evt ∷ q) v small e =
      let s' = record s { fifo = (fifo_pop s.fifo).1 } in
      let popped : (fifo_pop s.fifo).0 ≡ some evt =
        (fifo_pop_refines s.fifo v).1 ∙ ap (λ l. (pop l).0) e in
      ap (λ p. deliver call p (s', d)) popped
      ∙ deliver-serve evt s' d (small (vector_of evt))
      ∙ ap (λ d'. (true, (s', d'))) (serve-fifo evt s (fifo_pop s.fifo).1 d)

  -- With handlers that leave the tables and the queue alone, a valid queue, counts that fit a
  -- byte, and more fuel than queued events, `interrupt_dispatch_all` ends with an empty queue,
  -- having run the handlers of every event in the order of the queue.
  pub interrupt_dispatch_all-serve_all :
      (fuel : ℕ) (s : Irqs) (d : D) (q : List ℕ)
      → IsValid s.fifo
      → ((vec : ℕ) → s.count vec ≤ 255)
      → contents s.fifo ≡ q
      → length q < fuel
      → (f : Fifo) × (interrupt_dispatch_all call fuel (s, d)
          ≡ some (record s { fifo = f }, serve_all act s q d))
        × IsValid f
        × (contents f ≡ [])
  unfolding interrupt_dispatch_all serve_all pop
  interrupt_dispatch_all-serve_all zero s d q v small e lt = absurd (omega arith)
  interrupt_dispatch_all-serve_all (suc fuel) s d [] v small e lt =
      let refines = fifo_pop_refines s.fifo v in
      (
        (fifo_pop s.fifo).1,
        ap (after fuel) (dispatch_one-contents s d [] v small e),
        refines.0,
        refines.2 ∙ ap (λ l. (pop l).1) e,
      )
  interrupt_dispatch_all-serve_all (suc fuel) s d (evt ∷ q) v small e lt =
      let f = (fifo_pop s.fifo).1 in
      let s' = record s { fifo = f } in
      let refines = fifo_pop_refines s.fifo v in
      let (f', run, v', empty) =
        interrupt_dispatch_all-serve_all fuel s' (serve act s evt d) q refines.0 small
          (refines.2 ∙ ap (λ l. (pop l).1) e) (omega arith) in
      (
        f',
        ap (after fuel) (dispatch_one-contents s d (evt ∷ q) v small e)
            ∙ run
            ∙ ap (λ d'. some (record s { fifo = f' }, d'))
                (serve_all-fifo q s f (serve act s evt d)),
        v',
        empty,
      )
