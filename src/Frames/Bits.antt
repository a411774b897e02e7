-- ===== src/Frames/Bits.antt =====
-- The bitmap operations of src/kernel/mem/map.c, bit by bit.
use lite_core.Prelude.{
  ℕ, zero, suc, ◌/◌, ◌%◌, ◌≡◌, ◌≢◌, true, false, arith, refl, ap, ◌∙◌, if◌then◌else◌, ◌==◌,
}
use lite_core.Frames.{Chunk, bit, set_bit, clear_bit, chunk_test, chunk_set, chunk_clear}

bit-set_bit_self : (x b : ℕ) → bit (set_bit x b) b ≡ 1
unfolding bit set_bit
bit-set_bit_self x zero = omega arith
bit-set_bit_self x (suc b) = ap (λ y. bit y b) (omega arith) ∙ bit-set_bit_self (x / 2) b

bit-set_bit_ne : (x b c : ℕ) → c ≢ b → bit (set_bit x b) c ≡ bit x c
unfolding bit set_bit
bit-set_bit_ne x zero zero ne = absurd (ne refl)
bit-set_bit_ne x zero (suc c) ne = ap (λ y. bit y c) (omega arith)
bit-set_bit_ne x (suc b) zero ne = omega arith
bit-set_bit_ne x (suc b) (suc c) ne =
    ap (λ y. bit y c) (omega arith) ∙ bit-set_bit_ne (x / 2) b c (omega arith)

bit-clear_bit_self : (x b : ℕ) → bit (clear_bit x b) b ≡ 0
unfolding bit clear_bit
bit-clear_bit_self x zero = omega arith
bit-clear_bit_self x (suc b) = ap (λ y. bit y b) (omega arith) ∙ bit-clear_bit_self (x / 2) b

bit-clear_bit_ne : (x b c : ℕ) → c ≢ b → bit (clear_bit x b) c ≡ bit x c
unfolding bit clear_bit
bit-clear_bit_ne x zero zero ne = absurd (ne refl)
bit-clear_bit_ne x zero (suc c) ne = ap (λ y. bit y c) (omega arith)
bit-clear_bit_ne x (suc b) zero ne = omega arith
bit-clear_bit_ne x (suc b) (suc c) ne =
    ap (λ y. bit y c) (omega arith) ∙ bit-clear_bit_ne (x / 2) b c (omega arith)

-- `chunk_set` marks its frame and no other.
pub chunk_test-chunk_set :
    (c : Chunk) (i j : ℕ) → chunk_test (chunk_set i c) j ≡ (if j == i then true else chunk_test c j)
unfolding chunk_test chunk_set
chunk_test-chunk_set c i j = ground (
  arith,
  bit-set_bit_self (c.words (i / 32)) (i % 32),
  bit-set_bit_ne (c.words (i / 32)) (i % 32) (j % 32),
)

-- `chunk_clear` frees its frame and no other.
pub chunk_test-chunk_clear :
    (c : Chunk) (i j : ℕ)
    → chunk_test (chunk_clear i c) j ≡ (if j == i then false else chunk_test c j)
unfolding chunk_test chunk_clear
chunk_test-chunk_clear c i j = ground (
  arith,
  bit-clear_bit_self (c.words (i / 32)) (i % 32),
  bit-clear_bit_ne (c.words (i / 32)) (i % 32) (j % 32),
)
