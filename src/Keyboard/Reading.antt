-- ===== src/Keyboard/Reading.antt =====
-- What clients of src/kernel/device/keyboard.c read: `keyboard_getchar` and `keyboard_getchar_poll`.
use lite_core.Prelude.{
  ℕ, ◌%◌, ◌^◌, ◌≡◌, ◌≢◌, inl, inr, Bool, true, false, ◌&&◌, not, List, [], ◌∷◌, ◌++◌, arith,
  if◌then◌else◌, leb, ltb, ◌==◌, refl, ap, ap₂, ◌∙◌, sym, Bool-cases, length, subst, some, none,
  Option,
}
use lite_core.Interrupt.{Irqs}
use lite_core.Keyboard.{
  Keyboard, Input, buffer_get, entry, scancode_map, scancode_map_shift, upper, kbd_process,
  keyboard_poll, keyboard_getchar,
}
use lite_core.Keyboard.Buffer.{IsValid, contents, put, next, buffer_get_refines}
use lite_core.Keyboard.Typing.{
  Keys, view, typed, put_list, process, put_all-put_list, kbd_process_refines, is_modifier,
}

-- No character is 0, the answer for an empty buffer.
abbrev pub NonZero : List ℕ → Type 0
NonZero [] = Unit {0}
NonZero (c ∷ q) = (c ≢ 0) × NonZero q

NonZero-snoc : (q : List ℕ) (c : ℕ) → c ≢ 0 → NonZero q → NonZero (q ++ (c ∷ []))
NonZero-snoc [] c ne all = (ne, tt)
NonZero-snoc (d ∷ q) c ne (first, all) = (first, NonZero-snoc q c ne all)

put-NonZero : (c : ℕ) (q : List ℕ) → c ≢ 0 → NonZero q → NonZero (put c q)
unfolding put
put-NonZero c q ne all = elim (Bool-cases (leb 255 (length q))) [
  | inl full ↦ rw full all
  | inr room ↦ rw room (NonZero-snoc q c ne all)
]

put_list-NonZero : (cs q : List ℕ) → NonZero cs → NonZero q → NonZero (put_list cs q)
unfolding put_list
put_list-NonZero [] q none_zero all = all
put_list-NonZero (c ∷ cs) q (ne, none_zero) all =
    put_list-NonZero cs (put c q) none_zero (put-NonZero c q ne all)

upper-nonzero : (c : ℕ) → c ≢ 0 → upper c ≢ 0
unfolding upper
upper-nonzero c ne = ground arith

typed-NonZero : (code : ℕ) (shift ctrl alt : Bool) → NonZero (typed code shift ctrl alt)
unfolding typed
typed-NonZero code shift ctrl alt =
    ground (arith, upper-nonzero (entry (if shift then scancode_map_shift else scancode_map) code))

process-NonZero : (sc : ℕ) (s : Keys) → NonZero s.chars → NonZero (process sc s).chars
unfolding process
process-NonZero sc s all = elim (Bool-cases (ltb sc 128 && not (is_modifier (sc % 128)))) [
  | inl types ↦ rw types (
      put_list-NonZero (typed (sc % 128) s.shift s.ctrl s.alt) s.chars
        (typed-NonZero (sc % 128) s.shift s.ctrl s.alt) all)
  | inr other ↦ rw other all
]

-- With both positions in the buffer and no 0 among its characters, `kbd_process` leaves no 0 there
-- and keeps the positions in the buffer.
pub kbd_process-NonZero :
    (sc_payload : ℕ) (k : Keyboard)
    → IsValid k
    → NonZero (contents k)
    → IsValid (kbd_process sc_payload k) × NonZero (contents (kbd_process sc_payload k))
kbd_process-NonZero sc_payload k v all =
    let (v', e, _, _, _) = kbd_process_refines sc_payload k v in
    (v', subst NonZero (sym e) (process-NonZero (sc_payload % 2 ^ 8) (view k) all))

-- What a blocking read gives: the first character there is, after as many polls as it takes.
unfoldable pub await : List Input → List ℕ → Option (ℕ × List ℕ)
await [] [] = none
await (i ∷ is) [] = await is (put_list i.serial [])
await is (c ∷ q) = some (c, q)

abbrev pub AllNonZero : List Input → Type 0
AllNonZero [] = Unit {0}
AllNonZero (i ∷ is) = NonZero i.serial × AllNonZero is

abbrev pub seen : Option (ℕ × (Keyboard × Irqs)) → Option (ℕ × List ℕ)
seen none = none
seen (some (c, (k, s))) = some (c, contents k)

getchar_now :
    (is : List Input) (c : ℕ) (q : List ℕ) (k : Keyboard) (s : Irqs)
    → IsValid k
    → c ≢ 0
    → contents k ≡ c ∷ q
    → seen (keyboard_getchar is (k, s)) ≡ some (c, q)
unfolding keyboard_getchar next
getchar_now is c q k s v ne e =
    let (_, char, rest) = buffer_get_refines k v in
    let is_c : (buffer_get k).0 ≡ c = char ∙ ap (λ l. (next l).0) e in
    let is_q : contents (buffer_get k).1 ≡ q = rest ∙ ap (λ l. (next l).1) e in
    let got : ((buffer_get k).0 == 0) ≡ false = ground (arith, is_c, ne) in
    now is got (ap₂ given is_c is_q)
  where
    given : ℕ → List ℕ → Option (ℕ × List ℕ)
    given x l = some (x, l)

    now :
        (is : List Input)
        → ((buffer_get k).0 == 0) ≡ false
        → given (buffer_get k).0 (contents (buffer_get k).1) ≡ given c q
        → seen (keyboard_getchar is (k, s)) ≡ some (c, q)
    now [] got same = rw got same
    now (i ∷ is) got same = rw got same

-- A poll with an empty buffer leaves the serial characters in it.
poll_empty :
    (i : Input) (k : Keyboard) (s : Irqs)
    → IsValid k
    → contents k ≡ []
    → IsValid (keyboard_poll i (k, s)).0
      × (contents (keyboard_poll i (k, s)).0 ≡ put_list i.serial [])
unfolding keyboard_poll
poll_empty i k s v e =
    let (v', e') = put_all-put_list i.serial k v in (v', e' ∙ ap (put_list i.serial) e)

getchar-await :
    (is : List Input) (q : List ℕ) (k : Keyboard) (s : Irqs)
    → IsValid k
    → NonZero q
    → AllNonZero is
    → contents k ≡ q
    → seen (keyboard_getchar is (k, s)) ≡ await is q
unfolding keyboard_getchar await next
getchar-await [] (c ∷ q) k s v (ne, all) later e = getchar_now [] c q k s v ne e
getchar-await (i ∷ is) (c ∷ q) k s v (ne, all) later e = getchar_now (i ∷ is) c q k s v ne e
getchar-await [] [] k s v all later e =
    let none_there : ((buffer_get k).0 == 0) ≡ true =
      ap (λ c. c == 0) ((buffer_get_refines k v).1 ∙ ap (λ l. (next l).0) e) in
    rw none_there
getchar-await (i ∷ is) [] k s v all (chars, later) e =
    let (v', char, rest) = buffer_get_refines k v in
    let none_there : ((buffer_get k).0 == 0) ≡ true =
      ap (λ c. c == 0) (char ∙ ap (λ l. (next l).0) e) in
    let (v'', e') = poll_empty i (buffer_get k).1 s v' (rest ∙ ap (λ l. (next l).1) e) in
    rw none_there (
      getchar-await is (put_list i.serial []) (keyboard_poll i ((buffer_get k).1, s)).0
        (keyboard_poll i ((buffer_get k).1, s)).1 v'' (put_list-NonZero i.serial [] chars tt) later
        e')

-- With both positions in the buffer, and no 0 in the buffer or on the serial line,
-- `keyboard_getchar` gives the first character and leaves the others in order, after as many polls
-- as it takes; it still waits if the polls bring none.
pub keyboard_getchar_refines :
    (is : List Input) (k : Keyboard) (s : Irqs)
    → IsValid k
    → NonZero (contents k)
    → AllNonZero is
    → seen (keyboard_getchar is (k, s)) ≡ await is (contents k)
keyboard_getchar_refines is k s v all later = getchar-await is (contents k) k s v all later refl
