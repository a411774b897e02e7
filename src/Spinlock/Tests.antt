-- ===== src/Spinlock/Tests.antt =====
-- Two processors, of which the first takes the lock, and the theorems there.
use lite_core.Prelude.{ℕ, ◌≡◌, false, ◌==◌, refl, if-elim}
use lite_core.Spinlock.{
  System, outside, inside, Reach, start, later, save, round, irq_save, xchg_round, is_inside,
  interrupts,
}
use lite_core.Spinlock.Safety.{IsSafe, Reach-IsSafe, xchg_round-enters}

-- Interrupts are on.
abbrev enabled : ℕ → ℕ
enabled i = 0x202

abbrev idle : System
idle = record { lock = 0; cpus = λ i. record { rflags = 0x202; phase = outside } }

abbrev first_spins : System
first_spins = irq_save 0 idle

abbrev both_spin : System
both_spin = irq_save 1 first_spins

both_spin-Reach : Reach enabled both_spin
unfolding irq_save
both_spin-Reach = later (later start (save 0 refl)) (save 1 refl)

abbrev first_inside : System
first_inside = xchg_round 0 0x202 both_spin

Reach-IsSafe_example : IsSafe (xchg_round 1 0x202 first_inside)
unfolding irq_save xchg_round
Reach-IsSafe_example =
    Reach-IsSafe (later (later both_spin-Reach (round 0 0x202 refl)) (round 1 0x202 refl))

nobody_inside : (j : ℕ) → is_inside (both_spin.cpus j).phase ≡ false
unfolding irq_save is_inside
nobody_inside j =
    if-elim (λ k. is_inside k.phase ≡ false) (j == 1) (both_spin.cpus 1) (first_spins.cpus j)
      (λ e. refl)
      (λ e.
        if-elim (λ k. is_inside k.phase ≡ false) (j == 0) (first_spins.cpus 0) (idle.cpus j)
          (λ e. refl) (λ e. refl))

xchg_round-enters_example :
    let t = xchg_round 1 0x202 both_spin in
    ((t.cpus 1).phase ≡ inside 0x202) × (t.lock ≡ 1) × (interrupts (t.cpus 1).rflags ≡ 0)
unfolding irq_save
xchg_round-enters_example = xchg_round-enters 1 0x202 both_spin-Reach nobody_inside refl
