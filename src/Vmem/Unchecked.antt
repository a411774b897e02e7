-- ===== src/Vmem/Unchecked.antt =====
-- The check of user ranges (src/kernel/mem/usercopy.c) with the translation of
-- src/kernel/mem/vmem.c in the identity mode, the mode in which the kernel starts.
use lite_core.Prelude.{
  ℕ, ◌+◌, ◌-◌, ◌/◌, ◌^◌, ◌≤◌, ◌≡◌, Bool, true, false, ◌||◌, Option, some, none, arith, refl, sym,
  subst, ◌==◌,
}
use lite_core.Vmem.{Vmem, identity, vmem_virt_to_phys64, virt_to_phys_in}
use lite_core.Usercopy.{page_of, unmapped, validate_user_range}
use lite_core.Usercopy.Range.{Checked, validate_user_range-Checked}

-- In the identity mode an address is its own translation, whatever the page tables hold.
identity-unmapped :
    (v : Vmem) (words : ℕ → ℕ) (cr3 x : ℕ)
    → v.current_mode ≡ identity
    → 4096 ≤ x
    → unmapped (vmem_virt_to_phys64 v words cr3) (page_of x) ≡ false
unfolding vmem_virt_to_phys64 virt_to_phys_in
identity-unmapped v words cr3 x mode low =
    subst
      (λ m.
        ((virt_to_phys_in m v words cr3 (page_of x) == 0)
          || (virt_to_phys_in m v words cr3 (page_of x) == 2 ^ 64 - 1))
        ≡ false)
      (sym mode) (ground arith)

Checked-true :
    (translate : ℕ → ℕ) (lo hi : ℕ) (r : Option Bool)
    → ((x : ℕ) → lo ≤ x → unmapped translate (page_of x) ≡ false)
    → Checked translate lo hi r
    → r ≡ some true
Checked-true translate lo hi none ok w = absurd w
Checked-true translate lo hi (some true) ok w = refl
Checked-true translate lo hi (some false) ok (x, ge, lt, gap) =
    let here : unmapped translate (page_of x) ≡ false = ok x ge in ground arith

-- In the identity mode, whatever the page tables hold, `validate_user_range` over
-- `vmem_virt_to_phys64` accepts every range from address 4096 on that ends a page before the end
-- of the address space, on fuel of its pages and three.
pub validate_user_range-identity :
    (v : Vmem) (words : ℕ → ℕ) (cr3 fuel addr n : ℕ)
    → v.current_mode ≡ identity
    → 4096 ≤ addr
    → addr + n + 4096 ≤ 2 ^ 64
    → n / 4096 + 3 ≤ fuel
    → validate_user_range (vmem_virt_to_phys64 v words cr3) fuel addr n ≡ some true
validate_user_range-identity v words cr3 fuel addr n mode low small fueled =
    Checked-true (vmem_virt_to_phys64 v words cr3) addr (addr + n)
      (validate_user_range (vmem_virt_to_phys64 v words cr3) fuel addr n)
      (λ x ge. identity-unmapped v words cr3 x mode (omega arith))
      (validate_user_range-Checked (vmem_virt_to_phys64 v words cr3) fuel addr n (omega arith) small
        fueled)
