-- ===== src/Usercopy/Tests.antt =====
-- The user copies at a small memory.
use lite_core.Prelude.{ℕ, ◌^◌, ◌≡◌, ◌-◌, inl, some, true, arith, if◌then◌else◌, leb}
use lite_core.Usercopy.{validate_user_range, copy_to_user, copy_from_user}
use lite_core.Usercopy.Range.{Checked, validate_user_range-Checked, validate_user_range_wraps}
use lite_core.Usercopy.Copy.{Copied, user_copies_checked}

-- The pages from 0x2000 on are mapped to themselves.
abbrev upper : ℕ → ℕ
upper page = if leb 0x2000 page then page else 0

abbrev ramp : ℕ → ℕ
ramp a = a

validate_user_range-Checked_example :
    Checked upper 0x1FFF 0x2001 (validate_user_range upper 5 0x1FFF 2)
validate_user_range-Checked_example =
    validate_user_range-Checked upper 5 0x1FFF 2 (omega arith) (omega arith) (omega arith)

-- Nothing is mapped.
abbrev nowhere : ℕ → ℕ
nowhere page = 0

validate_user_range_wraps_example :
    validate_user_range nowhere 1 (2 ^ 64 - 0x1000) 0x2000 ≡ some true
validate_user_range_wraps_example =
    validate_user_range_wraps nowhere 0 (2 ^ 64 - 0x1000) 0x2000 (omega arith) (omega arith)
      (omega arith) (omega arith)

user_copies_checked_example :
    Copied upper 0x2FFE 0x2FFE 0x100 4 ramp (copy_to_user upper 7 0x2FFE 0x100 4 ramp)
    × Copied upper 0x100 0x2FFE 0x100 4 ramp (copy_from_user upper 7 0x2FFE 0x100 4 ramp)
user_copies_checked_example =
    user_copies_checked upper 7 0x2FFE 0x100 4 ramp (omega arith) (omega arith) (omega arith)
      (omega arith) (inl (omega arith)) (omega arith)
