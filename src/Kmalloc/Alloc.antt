-- ===== src/Kmalloc/Alloc.antt =====
-- `kmalloc` of src/kernel/mem/manager.c as a whole: the walk, the expansion and the retry.
use lite_core.Prelude.{
  ℕ, suc, ◌+◌, ◌-◌, ◌*◌, ◌/◌, ◌≤◌, ◌<◌, ◌^◌, ◌≡◌, ◌≢◌, inl, inr, List, ◌∷◌, Option, none, some,
  arith, leb, ◌==◌, ap, ◌∙◌, Bool-cases, false, update, add64, sub64,
}
use lite_core.Kmalloc.{
  Header, Heap, Allocation, returned, fuel_exhausted, Search, found, exhausted, out_of_fuel,
  size_at, link, wanted_with_canary, total_size, search, finish, expand_size, heap_expand,
  kmalloc_internal, kmalloc_canary, sizeof_header,
}
use lite_core.Kmalloc.Chain.{Block, Chain, Outside, Chain-fields, IsValid, free_list-link}
use lite_core.Kmalloc.FirstFit.{first_fit, Served, Framed}
use lite_core.Kmalloc.Fit.{free_bytes, Apart, Granted, first_fit-Fitted}
use lite_core.Kmalloc.Expand.{Grown, Expanded}

-- Up to 4 GiB - 32 no rounding wraps.
pub total_size_lem :
    (size : ℕ)
    → size ≤ 2 ^ 32 - 32
    → (total_size size ≡ (size + 7) / 8 * 8 + 24)
      × (wanted_with_canary size ≡ (size + 7) / 8 * 8 + 8)
unfolding total_size
total_size_lem size small = omega arith

-- A successful call gives out the `n` bytes at `a`, which have room for the header, the request
-- and the canary; `p` points behind the header.
pub record Allocated (size : ℕ) (h : Heap) (bs : List Block) (p : ℕ) (g : Heap) (a n : ℕ)
    (rest : List Block) : Type 0 where
  pub valid : IsValid g rest
  pub pointer : p ≡ a + 16
  pub above : h.heap_start ≤ a
  pub inside : a + n ≤ g.heap_end
  pub start : g.heap_start ≡ h.heap_start
  pub room : (size + 7) / 8 * 8 + 24 ≤ n
  pub header : size_at g a ≡ n
  pub apart : Apart a n rest
  pub bytes : free_bytes rest + n + h.heap_end ≡ free_bytes bs + g.heap_end
  pub others : (x : ℕ) → 0 < x → x < h.heap_end → Outside x bs → size_at g x ≡ size_at h x
  pub canary : g.words ≡ update h.words (a + (size + 7) / 8 * 8 + 20) kmalloc_canary

abbrev pub Succeeds : ℕ → Heap → List Block → Allocation → Type 0
Succeeds size h bs (returned p g) =
    (a : ℕ) × (n : ℕ) × (rest : List Block) × Allocated size h bs p g a n rest
Succeeds size h bs fuel_exhausted = ⊥

pub finish-fields :
    (size cur : ℕ) (h : Heap)
    → ((x : ℕ) → size_at (finish size cur h) x ≡ size_at h x)
      × ((x : ℕ) → link (finish size cur h) x ≡ link h x)
      × ((finish size cur h).heap_start ≡ h.heap_start)
      × ((finish size cur h).heap_end ≡ h.heap_end)
unfolding finish link
finish-fields size cur h = (λ x. ground arith, λ x. ground arith, ground arith, ground arith)

tagged-words :
    (size cur : ℕ) (h : Heap)
    → (finish size cur h).words
      ≡ update h.words
          (sub64 (add64 (add64 cur sizeof_header) (wanted_with_canary size)) 4)
          kmalloc_canary
unfolding finish
tagged-words size cur h = elim (Bool-cases (leb 256 size)) [ inl e ↦ rw e | inr e ↦ rw e ]

canary_address :
    (size cur : ℕ)
    → size ≤ 2 ^ 32 - 32
    → cur ≤ 2 ^ 32
    → sub64 (add64 (add64 cur sizeof_header) (wanted_with_canary size)) 4
      ≡ cur + (size + 7) / 8 * 8 + 20
canary_address size cur small near = omega (arith, total_size_lem size small)

-- Where first fit finds a block, the walk and `finish` give it out.
finish-Allocated :
    (size a n : ℕ) (rest bs : List Block) (h g : Heap)
    → size ≤ 2 ^ 32 - 32
    → IsValid h bs
    → Granted (total_size size) h.heap_start h.heap_end bs a n rest
    → Chain g 0 rest
    → size_at g a ≡ n
    → Framed 0 h.heap_start bs h g
    → Allocated size h bs (add64 a 16) (finish size a g) a n rest
finish-Allocated size a n rest bs h g small v grant c e f =
    let same = finish-fields size a g in
    let total = total_size_lem size small in
    let start : (finish size a g).heap_start ≡ h.heap_start = same.2 ∙ f.heap_start in
    let end : (finish size a g).heap_end ≡ h.heap_end = same.3 ∙ f.heap_end in
    record {
      valid = record {
        chain = Chain-fields g (finish size a g) 0 rest same.0 same.1 c;
        layout = rw (start, end) grant.layout;
        start = omega (arith, start);
        end = omega (arith, end);
      };
      pointer = omega arith;
      above = grant.above;
      inside = omega (arith, end);
      start = start;
      room = omega (arith, total);
      header = same.0 a ∙ e;
      apart = grant.apart;
      bytes = omega (arith, end);
      others =
          λ x pos lt out. same.0 x ∙ ap (λ (hd : Header). hd.size) (f.outside x out (omega arith));
      canary =
          tagged-words size a g
          ∙ ap (λ k. update g.words k kmalloc_canary) (canary_address size a small (omega arith))
          ∙ ap (λ w. update w (a + (size + 7) / 8 * 8 + 20) kmalloc_canary) f.words;
    }

pub nonempty-free_list :
    (h : Heap) (b : Block) (bs : List Block) → IsValid h (b ∷ bs) → (h.free_list == 0) ≡ false
nonempty-free_list h (a, s) bs v = ground (arith, free_list-link h)

module _ (size fuel retries : ℕ) (h : Heap) (asked : 0 < size) (small : size ≤ 2 ^ 32 - 32) where
  -- The attempt whose walk comes to `r`, where a block fits.
  pub attempt-fits :
      (b : Block) (bs : List Block) (r : Search)
      → IsValid h (b ∷ bs)
      → search fuel (total_size size) 0 h.free_list h ≡ r
      → Served (total_size size) 0 h.heap_start (b ∷ bs) h r
      → first_fit (total_size size) (b ∷ bs) ≢ none
      → Succeeds size h (b ∷ bs) (kmalloc_internal fuel (suc retries) size h)
  unfolding kmalloc_internal
  attempt-fits b bs (found cur g) v e (n, rest, fit, c, at, f) some_fit =
      let full = nonempty-free_list h b bs v in
      let some_bytes : (size == 0) ≡ false = ground arith in
      let total = total_size_lem size small in
      let grant =
        first_fit-Fitted (total_size size) h.heap_start h.heap_end (b ∷ bs) (omega (arith, total))
          v.layout in
      rw (some_bytes, full, e)
        (
          cur,
          n,
          rest,
          finish-Allocated size cur n rest (b ∷ bs) h g small v (rw fit at grant) c at f,
        )
  attempt-fits b bs (exhausted g) v e (none_fits, same) some_fit = absurd (some_fit none_fits)
  attempt-fits b bs out_of_fuel v e served some_fit = absurd served

  -- The attempt where none fits: the heap grows, and the call goes on.
  pub attempt-grows :
      (b : Block) (bs : List Block) (r : Search) (o : Option Heap)
      → IsValid h (b ∷ bs)
      → search fuel (total_size size) 0 h.free_list h ≡ r
      → Served (total_size size) 0 h.heap_start (b ∷ bs) h r
      → first_fit (total_size size) (b ∷ bs) ≡ none
      → heap_expand fuel (expand_size (total_size size)) h ≡ o
      → (n : ℕ) → Expanded n h (b ∷ bs) o
      → (g : Heap) × Grown n h (b ∷ bs) g
        × (kmalloc_internal fuel (suc retries) size h ≡ kmalloc_internal fuel retries size g)
  unfolding kmalloc_internal
  attempt-grows b bs (found cur g) o v e (m, rest, fit, c, at, f) no_fit ex n x = cc
  attempt-grows b bs (exhausted g) none v e served no_fit ex n x = absurd x
  attempt-grows b bs (exhausted g) (some g') v e (_, same) no_fit ex n x =
      let full = nonempty-free_list h b bs v in
      let some_bytes : (size == 0) ≡ false = ground arith in
      (g', x, rw (some_bytes, full, e, same, ex))
  attempt-grows b bs out_of_fuel o v e served no_fit ex n x = absurd served
