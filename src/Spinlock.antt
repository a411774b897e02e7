-- ===== src/Spinlock.antt =====
-- The spin lock of src/kernel/sync/spinlock.c, with the interrupt flags of src/kernel/interrupt/irq.c,
-- on processors that run in any order. A step is one access to the lock or to a processor's flags.
pub mod Safety
mod Tests
use lite_core.Prelude.{
  ℕ, ◌+◌, ◌-◌, ◌*◌, ◌/◌, ◌%◌, ◌^◌, ◌≡◌, Bool, true, false, if◌then◌else◌, ◌==◌, update, u32,
}

-- Where a processor stands between `spin_lock_irqsave` and `spin_unlock_irqrestore`, with the
-- flags that it saved.
pub data Phase : Type 0 where
  outside : Phase
  spinning inside unlocked : (flags : ℕ) → Phase

pub record Cpu : Type 0 where
  pub rflags : ℕ
  pub phase : Phase

-- `spinlock_t` and the processors.
pub record System : Type 0 where
  pub lock : ℕ
  pub cpus : ℕ → Cpu

unfoldable pub is_inside : Phase → Bool
is_inside outside = false
is_inside (spinning flags) = false
is_inside (inside flags) = true
is_inside (unlocked flags) = false

unfoldable pub is_outside : Phase → Bool
is_outside outside = true
is_outside (spinning flags) = false
is_outside (inside flags) = false
is_outside (unlocked flags) = false

-- The interrupt flag is bit 9 of RFLAGS.
unfoldable pub interrupts : ℕ → ℕ
interrupts rflags = rflags / 512 % 2

unfoldable pub cli : ℕ → ℕ
unfolding interrupts
cli rflags = rflags - interrupts rflags * 512

abbrev pub set_cpu : ℕ → Cpu → System → System
set_cpu i c s = record s { cpus = update s.cpus i c }

-- `irq_save` of processor `i`; `spin_lock_irqsave` keeps 32 bits of the flags.
unfoldable pub irq_save : ℕ → System → System
unfolding cli
irq_save i s =
    let f = (s.cpus i).rflags in set_cpu i (record { rflags = cli f; phase = spinning (u32 f) }) s

-- One round of the loop of `spin_lock`: the exchange with 1 gives the lock if it was 0.
unfoldable pub xchg_round : (i flags : ℕ) → System → System
xchg_round i flags s =
    let taken = record s { lock = 1 } in
    if s.lock == 0 then set_cpu i (record (s.cpus i) { phase = inside flags }) taken else taken

unfoldable pub spin_unlock : (i flags : ℕ) → System → System
spin_unlock i flags s =
    set_cpu i (record (s.cpus i) { phase = unlocked flags }) (record s { lock = 0 })

unfoldable pub irq_restore : (i flags : ℕ) → System → System
irq_restore i flags s = set_cpu i (record { rflags = flags; phase = outside }) s

-- What may happen next: a processor goes on, or changes its flags where it is outside.
pub data Step : System → System → Type 0 where
  save : {s : System} (i : ℕ) → (s.cpus i).phase ≡ outside → Step s (irq_save i s)
  round :
      {s : System} (i flags : ℕ) → (s.cpus i).phase ≡ spinning flags → Step s (xchg_round i flags s)
  unlock :
      {s : System} (i flags : ℕ) → (s.cpus i).phase ≡ inside flags → Step s (spin_unlock i flags s)
  restore :
      {s : System} (i flags : ℕ)
      → (s.cpus i).phase ≡ unlocked flags
      → Step s (irq_restore i flags s)
  other_work :
      {s : System} (i rflags : ℕ)
      → (s.cpus i).phase ≡ outside
      → Step s (set_cpu i (record { rflags = rflags; phase = outside }) s)

-- The states that are reached from the start, where the lock is 0 and every processor outside.
pub data Reach (rflags : ℕ → ℕ) : System → Type 0 where
  start :
      Reach rflags (record { lock = 0; cpus = λ i. record { rflags = rflags i; phase = outside } })
  later : {s t : System} → Reach rflags s → Step s t → Reach rflags t
