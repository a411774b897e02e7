-- ===== src/Usercopy.antt =====
-- The user copies of src/kernel/mem/usercopy.c. Memory is a byte at every address. The page walk
-- `vmem_virt_to_phys64` of src/kernel/mem/vmem.c is the argument `virt_to_phys`: 0 and 2^64 - 1 mean
-- that the page is not mapped. A result `true` is 0 in the source, `false` is -1. The loops run on
-- fuel.
pub mod Range
pub mod Copy
mod Tests
use lite_core.Prelude.{
  ℕ, zero, suc, ◌+◌, ◌-◌, ◌*◌, ◌/◌, ◌^◌, Bool, true, false, ◌||◌, Option, none, some, if◌then◌else◌,
  ltb, leb, ◌==◌, update, add64, sub64,
}

abbrev pub page_size : ℕ
page_size = 0x1000

abbrev pub page_of : ℕ → ℕ
page_of a = a / page_size * page_size

module _ (virt_to_phys : ℕ → ℕ) where
  abbrev pub unmapped : ℕ → Bool
  unmapped page = (virt_to_phys page == 0) || (virt_to_phys page == 2 ^ 64 - 1)

  -- The loop over the pages from `page` to the one that holds `end`.
  unfoldable pub validate_from : ℕ → (page end : ℕ) → Option Bool
  validate_from zero page end = none
  validate_from (suc fuel) page end =
      let rest = validate_from fuel (add64 page page_size) end in
      if leb page end then (if unmapped page then some false else rest) else some true

  unfoldable pub validate_user_range : ℕ → (addr n : ℕ) → Option Bool
  validate_user_range fuel addr n =
      if addr == 0
      then some false
      else if n == 0
      then some true
      else validate_from fuel (page_of addr) (sub64 (add64 addr n) 1)

-- The inner loop: bytes in ascending order.
unfoldable pub copy_bytes : ℕ → (dst src : ℕ) → (ℕ → ℕ) → ℕ → ℕ
copy_bytes zero dst src mem = mem
copy_bytes (suc n) dst src mem = copy_bytes n (add64 dst 1) (add64 src 1) (update mem dst (mem src))

-- The bytes up to the end of the page of `user`, `remaining` at most.
unfoldable pub chunk : (user remaining : ℕ) → ℕ
chunk user remaining =
    let left = sub64 (add64 (page_of user) page_size) user in
    if ltb remaining left then remaining else left

-- The outer loops of `copy_to_user` and `copy_from_user`: chunks end at the pages of the user side.
unfoldable pub copy_to_pages : ℕ → (dst src remaining : ℕ) → (ℕ → ℕ) → Option (ℕ → ℕ)
copy_to_pages zero dst src remaining mem = none
copy_to_pages (suc fuel) dst src remaining mem =
    let n = chunk dst remaining in
    let rest =
      copy_to_pages fuel (add64 dst n) (add64 src n) (remaining - n) (copy_bytes n dst src mem) in
    if remaining == 0 then some mem else rest

unfoldable pub copy_from_pages : ℕ → (dst src remaining : ℕ) → (ℕ → ℕ) → Option (ℕ → ℕ)
copy_from_pages zero dst src remaining mem = none
copy_from_pages (suc fuel) dst src remaining mem =
    let n = chunk src remaining in
    let rest =
      copy_from_pages fuel (add64 dst n) (add64 src n) (remaining - n) (copy_bytes n dst src mem) in
    if remaining == 0 then some mem else rest

-- What both functions do around their loop: the checks, on the user address `user`.
unfoldable pub checked :
    (ℕ → ℕ) → ℕ → (dst src user n : ℕ) → (ℕ → ℕ) → Option (ℕ → ℕ) → Option (Bool × (ℕ → ℕ))
checked virt_to_phys fuel dst src user n mem copied =
    if (dst == 0) || (src == 0)
    then some (false, mem)
    else elim (validate_user_range virt_to_phys fuel user n) [
      | none ↦ none
      | some false ↦ some (false, mem)
      | some true ↦ elim copied [ none ↦ none | some g ↦ some (true, g) ]
    ]

unfoldable pub copy_to_user :
    (ℕ → ℕ) → ℕ → (user_dest kern_src n : ℕ) → (ℕ → ℕ) → Option (Bool × (ℕ → ℕ))
copy_to_user virt_to_phys fuel user_dest kern_src n mem =
    checked virt_to_phys fuel user_dest kern_src user_dest n mem
      (copy_to_pages fuel user_dest kern_src n mem)

unfoldable pub copy_from_user :
    (ℕ → ℕ) → ℕ → (kern_dest user_src n : ℕ) → (ℕ → ℕ) → Option (Bool × (ℕ → ℕ))
copy_from_user virt_to_phys fuel kern_dest user_src n mem =
    checked virt_to_phys fuel kern_dest user_src user_src n mem
      (copy_from_pages fuel kern_dest user_src n mem)
