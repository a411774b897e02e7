-- ===== src/Kmalloc/Tests.antt =====
-- Runs of the allocator, and its theorems at a heap of 64 KiB.
use lite_core.Prelude.{ℕ, ◌+◌, ◌-◌, ◌≡◌, refl, List, [], ◌∷◌, some, arith, false, inr, update}
use lite_core.Kmalloc.{
  Header, Heap, Allocation, returned, kmalloc, kmalloc_internal, search, finish, total_size,
  kmalloc_canary, link,
}
use lite_core.Kmalloc.Kfree.{kfree}
use lite_core.Kmalloc.Chain.{Block, IsValid}
use lite_core.Kmalloc.Alloc.{Succeeds}
use lite_core.Kmalloc.Retry.{kmalloc-Succeeds}
use lite_core.Kmalloc.Balance.{IsGiven, Released, kfree-Released, RoundTrip, kmalloc-kfree}

abbrev blank : Heap
blank = record {
  headers = λ a. record { size = 0; tag = 0; next = 0 };
  words = λ a. 0;
  free_list = 0;
  heap_start = 0;
  heap_end = 0;
  alloc_seq = 1;
}

abbrev one_block : Header
one_block = record { size = 0x10000; tag = 0; next = 0 }

-- The heap after `mem_init(0x10000, 0x20000)`.
abbrev fresh : Heap
fresh = record blank {
  headers = update blank.headers 0x10000 one_block;
  free_list = 0x10000;
  heap_start = 0x10000;
  heap_end = 0x20000;
}

fresh-IsValid : IsValid fresh ((0x10000, 0x10000) ∷ [])
unfolding link
fresh-IsValid = record {
  chain = (refl, refl, refl);
  layout = omega arith;
  start = omega arith;
  end = omega arith;
}

-- Two requests: the pointers lie behind the headers of neighbouring blocks.
abbrev run : Allocation → ℕ → Allocation
run (returned p h) size = kmalloc 5 size h
run a size = a

abbrev pointer : Allocation → ℕ
pointer (returned p h) = p
pointer a = 0

two_requests : pointer (run (kmalloc 5 100 fresh) 10) ≡ 0x10010 + 128
unfolding kmalloc kmalloc_internal search finish total_size
two_requests = refl

kmalloc-Succeeds_example : Succeeds 100 fresh ((0x10000, 0x10000) ∷ []) (kmalloc 5 100 fresh)
kmalloc-Succeeds_example =
    kmalloc-Succeeds 5 100 fresh (0x10000, 0x10000) [] fresh-IsValid (omega arith) (omega arith)
      (omega arith)

-- A block of 128 bytes given out from the front of the heap.
abbrev used : Heap
used = record fresh {
  headers =
      update (update blank.headers 0x10000 (record { size = 128; tag = 0; next = 0 })) 0x10080
        (record { size = 0x10000 - 128; tag = 0; next = 0 });
  words = update blank.words 0x1007c kmalloc_canary;
  free_list = 0x10080;
}

used-IsValid : IsValid used ((0x10080, 0x10000 - 128) ∷ [])
unfolding link
used-IsValid = record {
  chain = (refl, refl, refl);
  layout = omega arith;
  start = omega arith;
  end = omega arith;
}

used-IsGiven : IsGiven used ((0x10080, 0x10000 - 128) ∷ []) 0x10000 128
used-IsGiven = record {
  header = refl;
  room = omega arith;
  above = omega arith;
  inside = omega arith;
  apart = (inr (omega arith), tt);
}

kfree-Released_example :
    (g : Heap) × (cs : List Block) × (kfree 5 0x10010 used ≡ some (g, false))
    × Released used ((0x10080, 0x10000 - 128) ∷ []) 0x10000 128 g cs
kfree-Released_example = kfree-Released 5 0x10000 128 used _ used-IsValid used-IsGiven (omega arith)

kmalloc-kfree_example : RoundTrip 100 fresh ((0x10000, 0x10000) ∷ []) (kmalloc 5 100 fresh)
kmalloc-kfree_example =
    kmalloc-kfree 5 100 fresh (0x10000, 0x10000) [] fresh-IsValid (omega arith) (omega arith)
      (omega arith)
