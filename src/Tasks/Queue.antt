-- ===== src/Tasks/Queue.antt =====
-- The ready queue of src/kernel/task/multi_task.c, a list linked through the tasks, against a list of
-- addresses.
use lite_core.Prelude.{
  ℕ, ◌≡◌, ◌≢◌, List, [], ◌∷◌, ◌++◌, arith, refl, sym, ap, ◌∙◌, if◌then◌else◌, ◌==◌, fun_ext,
}
use lite_core.Tasks.{Tasks}

-- The tasks from `p` on, through `next`, up to a 0.
abbrev pub Linked : (next : ℕ → ℕ) → ℕ → List ℕ → Type 0
Linked next p [] = p ≡ 0
Linked next p (t ∷ l) = (p ≡ t) × (t ≢ 0) × Linked next (next t) l

abbrev pub last_of : ℕ → List ℕ → ℕ
last_of d [] = d
last_of d (t ∷ l) = last_of t l

-- A task is not in the list; no task is in it twice.
abbrev pub Away : ℕ → List ℕ → Type 0
Away t [] = Unit {0}
Away t (x ∷ l) = (t ≢ x) × Away t l

abbrev pub IsDistinct : List ℕ → Type 0
IsDistinct [] = Unit {0}
IsDistinct (x ∷ l) = Away x l × IsDistinct l

abbrev pub next_in : Tasks → ℕ → ℕ
next_in s t = (s.mem t).next

-- The ready queue holds the tasks of the list, in this order.
pub record Queue (s : Tasks) (l : List ℕ) : Type 0 where
  pub linked : Linked (next_in s) s.ready_queue_head l
  pub tail : s.ready_queue_tail ≡ last_of 0 l
  pub distinct : IsDistinct l

pub Linked-frame :
    (next next' : ℕ → ℕ) (t p : ℕ) (l : List ℕ)
    → ((x : ℕ) → x ≢ t → next' x ≡ next x)
    → Away t l
    → Linked next p l
    → Linked next' p l
Linked-frame next next' t p [] same away h = h
Linked-frame next next' t p (x ∷ l) same away h =
    let step : next' x ≡ next x = same x (λ e. away.0 (sym e)) in
    (h.0, h.1, rw step (Linked-frame next next' t (next x) l same away.1 h.2))

last-ne-zero : (next : ℕ → ℕ) (p d : ℕ) (l : List ℕ) → d ≢ 0 → Linked next p l → last_of d l ≢ 0
last-ne-zero next p d [] ne h = ne
last-ne-zero next p d (x ∷ l) ne h = last-ne-zero next (next x) x l h.1 h.2

Away-last : (t x : ℕ) (l : List ℕ) → t ≢ x → Away t l → t ≢ last_of x l
Away-last t x [] ne away = ne
Away-last t x (y ∷ l) ne away = Away-last t y l away.0 away.1

-- The link from the last task to `t` lengthens the list by `t`.
Linked-snoc :
    (next next' : ℕ → ℕ) (t p x : ℕ) (l : List ℕ)
    → t ≢ 0
    → Away t (x ∷ l)
    → IsDistinct (x ∷ l)
    → next' t ≡ 0
    → next' (last_of x l) ≡ t
    → ((y : ℕ) → y ≢ t → y ≢ last_of x l → next' y ≡ next y)
    → Linked next p (x ∷ l)
    → Linked next' p (x ∷ l ++ (t ∷ []))
Linked-snoc next next' t p x [] ne away distinct end link same h = (h.0, h.1, (link, ne, end))
Linked-snoc next next' t p x (y ∷ l) ne away distinct end link same h =
    let step : next' x ≡ next x =
      same x (λ e. away.0 (sym e)) (Away-last x y l distinct.0.0 distinct.0.1) in
    (
      h.0,
      h.1,
      rw step (Linked-snoc next next' t (next x) y l ne away.1 distinct.1 end link same h.2),
    )

pub Away-snoc : (x t : ℕ) (l : List ℕ) → x ≢ t → Away x l → Away x (l ++ (t ∷ []))
Away-snoc x t [] ne away = (ne, tt)
Away-snoc x t (y ∷ l) ne away = (away.0, Away-snoc x t l ne away.1)

IsDistinct-snoc : (t : ℕ) (l : List ℕ) → Away t l → IsDistinct l → IsDistinct (l ++ (t ∷ []))
IsDistinct-snoc t [] away distinct = (tt, tt)
IsDistinct-snoc t (x ∷ l) away distinct =
    (Away-snoc x t l (λ e. away.0 (sym e)) distinct.0, IsDistinct-snoc t l away.1 distinct.1)

last-snoc : (d t : ℕ) (l : List ℕ) → last_of d (l ++ (t ∷ [])) ≡ t
last-snoc d t [] = refl
last-snoc d t (x ∷ l) = last-snoc x t l

-- What linking `t` behind the queue amounts to, in whichever order its writes are made.
pub record Linking (t : ℕ) (s s' : Tasks) : Type 0 where
  pub head : s'.ready_queue_head ≡ (if s.ready_queue_tail == 0 then t else s.ready_queue_head)
  pub tail : s'.ready_queue_tail ≡ t
  pub end : next_in s' t ≡ 0
  pub link : s.ready_queue_tail ≢ 0 → next_in s' s.ready_queue_tail ≡ t
  pub same : (x : ℕ) → x ≢ t → x ≢ s.ready_queue_tail → next_in s' x ≡ next_in s x

pub Queue-snoc :
    (t : ℕ) (s s' : Tasks) (l : List ℕ)
    → t ≢ 0
    → Away t l
    → Linking t s s'
    → Queue s l
    → Queue s' (l ++ (t ∷ []))
Queue-snoc t s s' [] ne away k q =
    let first : s'.ready_queue_head ≡ t = ground (arith, k.head, q.tail) in
    record { linked = (first, ne, k.end); tail = k.tail; distinct = (tt, tt) }
Queue-snoc t s s' (x ∷ l) ne away k q =
    let last : s.ready_queue_tail ≢ 0 =
      λ e. last-ne-zero (next_in s) (next_in s x) x l q.linked.1 q.linked.2 (sym q.tail ∙ e) in
    let first : s'.ready_queue_head ≡ s.ready_queue_head = ground (arith, k.head, last) in
    record {
      linked = rw first (
          Linked-snoc (next_in s) (next_in s') t s.ready_queue_head x l ne away q.distinct k.end
            (ap (next_in s') (sym q.tail) ∙ k.link last)
            (λ y other not_last. k.same y other (λ e. not_last (e ∙ q.tail))) q.linked);
      tail = k.tail ∙ sym (last-snoc x t l);
      distinct = IsDistinct-snoc t (x ∷ l) away q.distinct;
    }

-- A task that is not in the queue is not its tail.
pub not_last : {b : ℕ} (t : ℕ) (l : List ℕ) → t ≢ 0 → Away t l → b ≡ last_of 0 l → t ≢ b
not_last t l ne away tail e = Away-last t 0 l ne away (e ∙ tail)

-- A queue whose links and ends are those of another.
pub Queue-same :
    (s s' : Tasks) (l : List ℕ)
    → ((x : ℕ) → next_in s' x ≡ next_in s x)
    → s'.ready_queue_head ≡ s.ready_queue_head
    → s'.ready_queue_tail ≡ s.ready_queue_tail
    → Queue s l
    → Queue s' l
Queue-same s s' l same head tail q = record {
  linked = rw (head, fun_ext same) q.linked;
  tail = tail ∙ q.tail;
  distinct = q.distinct;
}
