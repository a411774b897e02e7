-- ===== src/Usercopy/Range.antt =====
-- Which ranges `validate_user_range` (src/kernel/mem/usercopy.c) accepts.
use lite_core.Prelude.{
  ℕ, zero, suc, ◌+◌, ◌-◌, ◌*◌, ◌/◌, ◌≤◌, ◌<◌, ◌^◌, ◌≡◌, ◌≢◌, inl, inr, Bool, true, false, Option,
  none, some, arith, ltb, leb, ◌==◌, add64, sub64, refl, ap, ◌∙◌, Bool-cases,
}
use lite_core.Usercopy.{page_of, unmapped, validate_from, validate_user_range}

module _ (virt_to_phys : ℕ → ℕ) where
  -- The pages of the addresses from `lo` on, below `hi`: all are mapped, or one is not.
  abbrev pub Checked : (lo hi : ℕ) → Option Bool → Type 0
  Checked lo hi none = ⊥
  Checked lo hi (some true) = (x : ℕ) → lo ≤ x → x < hi → unmapped virt_to_phys (page_of x) ≡ false
  Checked lo hi (some false) =
      (x : ℕ) × (lo ≤ x) × (x < hi) × (unmapped virt_to_phys (page_of x) ≡ true)

  -- A mapped page in front of a range that is right.
  Checked-step :
      (lo p hi : ℕ) (r : Option Bool)
      → page_of lo ≡ p * 4096
      → unmapped virt_to_phys (p * 4096) ≡ false
      → Checked ((p + 1) * 4096) hi r
      → Checked lo hi r
  Checked-step lo p hi none e m c = c
  Checked-step lo p hi (some true) e m c = λ x ge lt. elim (Bool-cases (ltb x ((p + 1) * 4096))) [
    | inl here ↦ let at : page_of x ≡ p * 4096 = ground arith in ap (unmapped virt_to_phys) at ∙ m
    | inr later ↦ c x (ground arith) lt
  ]
  Checked-step lo p hi (some false) e m (x, ge, lt, u) = (x, omega arith, lt, u)

  validate_from-Checked :
      (fuel lo p hi : ℕ)
      → page_of lo ≡ p * 4096
      → (p * 4096 < hi → lo < hi)
      → 0 < hi
      → hi + 4096 ≤ 2 ^ 64
      → p * 4096 ≤ hi + 4095
      → hi + 4096 ≤ (p + fuel) * 4096
      → Checked lo hi (validate_from virt_to_phys fuel (p * 4096) (hi - 1))
  unfolding validate_from
  validate_from-Checked zero lo p hi e reach pos small near fueled = absurd (omega arith)
  validate_from-Checked (suc fuel) lo p hi e reach pos small near fueled =
      elim (Bool-cases (leb (p * 4096) (hi - 1))) [
        | inr done ↦ rw done (λ x ge lt. absurd (ground arith))
        | inl more ↦ elim (Bool-cases (unmapped virt_to_phys (p * 4096))) [
          | inl gap ↦
              rw (more, gap)
                (lo, omega arith, reach (ground arith), ap (unmapped virt_to_phys) e ∙ gap)
          | inr there ↦
              let next : add64 (p * 4096) 4096 ≡ (p + 1) * 4096 = ground arith in
              rw (more, there, next)
                (Checked-step lo p hi (validate_from virt_to_phys fuel ((p + 1) * 4096) (hi - 1)) e
                  there
                  (validate_from-Checked fuel ((p + 1) * 4096) (p + 1) hi (omega arith) (λ lt. lt)
                    pos small (ground arith) (omega arith)))
        ]
      ]

  -- For an address other than 0, a range that ends a page before the end of the address space, and
  -- fuel of its pages and three, `validate_user_range` ends and says whether every address of the
  -- range lies in a mapped page.
  pub validate_user_range-Checked :
      (fuel addr n : ℕ)
      → addr ≢ 0
      → addr + n + 4096 ≤ 2 ^ 64
      → n / 4096 + 3 ≤ fuel
      → Checked addr (addr + n) (validate_user_range virt_to_phys fuel addr n)
  unfolding validate_user_range
  validate_user_range-Checked fuel addr n ne small fueled = elim (Bool-cases (n == 0)) [
    | inl none_asked ↦
        let given : (addr == 0) ≡ false = ground arith in
        rw (given, none_asked) (λ x ge lt. absurd (ground arith))
    | inr asked ↦
        let given : (addr == 0) ≡ false = ground arith in
        let last : sub64 (add64 addr n) 1 ≡ addr + n - 1 = ground arith in
        rw (given, asked, last)
          (validate_from-Checked fuel addr (addr / 4096) (addr + n) refl (λ lt. ground arith)
            (ground arith) small (omega arith) (omega arith))
  ]

  -- A range that wraps around the end of the address space is accepted with no page looked at,
  -- when its last address lies below the page of its first.
  pub validate_user_range_wraps :
      (fuel addr n : ℕ)
      → addr < 2 ^ 64
      → n < 2 ^ 64
      → 2 ^ 64 < addr + n
      → addr + n - 2 ^ 64 ≤ page_of addr
      → validate_user_range virt_to_phys (suc fuel) addr n ≡ some true
  unfolding validate_user_range validate_from
  validate_user_range_wraps fuel addr n word size wraps below = ground arith
