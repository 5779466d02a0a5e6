-- ===== src/Kernel/Terminal/Editing.antt =====
-- `readline` does to its buffer what an editor of a line does to the line.
use conc_os.Common.{
  ℕ, zero, suc, ◌-◌, ◌≤◌, ◌<◌, ◌≡◌, refl, sym, ◌∙◌, ap, ap₂, List, [], ◌∷◌, ◌++◌, Bool, true, false,
  inl, inr, ltb, if◌then◌else◌, Bool-cases, length, set, take, length-append, length-set,
  length-take, dec_lt, lt→ltb, le→ltb, arith, ◌==◌, some, ℕ_discrete,
}
use conc_os.Kernel.Terminal.{
  buffer_too_small, Line, Outcome, entered, failed, waits, is_enter, is_erase, is_printable,
  erasing, echo, readline, minus_one, store,
}

-- The editor: a line of at most `room` bytes, what is typed, and how it ends.
pub data Edited : Type 0 where
  done : List ℕ → List ℕ → Edited
  too_long : List ℕ → Edited
  open_line : List ℕ → Edited

-- What a byte asks of the editor, by the ASCII table: the control codes, the characters with a
-- shape and the space, and DEL.
pub data Key : Type 0 where
  finish rub_out character control : Key

abbrev control_key : ℕ → Key
control_key byte =
    if byte == 10
    then finish
    else if byte == 13
    then finish
    else if byte == 8
    then rub_out
    else control

unfoldable pub key : ℕ → Key
key byte =
    if ltb byte 32
    then control_key byte
    else if ltb byte 127
    then character
    else if byte == 127
    then rub_out
    else control

abbrev pub init : List ℕ → List ℕ
init line = take (length line - 1) line

-- Rubbing out takes the last character away, if there is one.
unfoldable pub edit : ℕ → List ℕ → List ℕ → Edited
edit room line [] = open_line line
edit room line (byte ∷ bytes) = elim (key byte) [
  | finish ↦ done line bytes
  | rub_out ↦ edit room (init line) bytes
  | character ↦
      let typed = edit room (line ++ (byte ∷ [])) bytes in
      if ltb (length line) room then typed else too_long line
  | control ↦ edit room line bytes
]

-- The tests of the code, by the key.
enter_key : (byte : ℕ) → is_enter byte ≡ true → key byte ≡ finish
unfolding key
enter_key byte e = ground arith

erase_key : (byte : ℕ) → is_enter byte ≡ false → is_erase byte ≡ true → key byte ≡ rub_out
unfolding key
erase_key byte e r = ground arith

erase_no_print : (byte : ℕ) → is_erase byte ≡ true → is_printable byte ≡ false
erase_no_print byte r = ground arith

print_key :
    (byte : ℕ)
    → is_enter byte ≡ false
    → is_erase byte ≡ false
    → is_printable byte ≡ true
    → key byte ≡ character
unfolding key
print_key byte e r p = ground arith

other_key :
    (byte : ℕ)
    → is_enter byte ≡ false
    → is_erase byte ≡ false
    → is_printable byte ≡ false
    → key byte ≡ control
unfolding key
other_key byte e r p = ground arith

-- The buffer holds the line, at its front.
pub record Holds (room : ℕ) (line : List ℕ) (l : Line) : Type 0 where
  pub size : length l.buffer ≡ room
  pub used : l.count ≡ length line
  pub fits : length line ≤ room
  pub front : take l.count l.buffer ≡ line

-- `readline` ends as the editor does, with the editor's line in its buffer.
pub data Agrees (room : ℕ) (o : Outcome) (e : Edited) : Type 0 where
  both_done :
      (l : Line) (line rest : List ℕ)
      → o ≡ entered l rest
      → e ≡ done line rest
      → Holds room line l
      → Agrees room o e
  both_full :
      (l : Line) (line : List ℕ)
      → o ≡ failed buffer_too_small l
      → e ≡ too_long line
      → Holds room line l
      → length line ≡ room
      → Agrees room o e
  both_open :
      (l : Line) (line : List ℕ)
      → o ≡ waits l
      → e ≡ open_line line
      → Holds room line l
      → Agrees room o e

take-set :
    (xs : List ℕ) (n v : ℕ) → n < length xs → take (suc n) (set xs n v) ≡ take n xs ++ (v ∷ [])
take-set [] n v h = absurd (omega arith)
take-set (x ∷ xs) zero v h = refl
take-set (x ∷ xs) (suc n) v h = ap (◌∷◌ x) (take-set xs n v (omega arith))

take-take : (n m : ℕ) (xs : List ℕ) → n ≤ m → take n (take m xs) ≡ take n xs
take-take zero m xs h = refl
take-take (suc n) zero xs h = absurd (omega arith)
take-take (suc n) (suc m) [] h = refl
take-take (suc n) (suc m) (x ∷ xs) h = ap (◌∷◌ x) (take-take n m xs (omega arith))

Holds-erase :
    (room : ℕ) (line : List ℕ) (l : Line)
    → Holds room line l
    → Holds room (init line) (echo erasing (record l { count = l.count - 1 }))
Holds-erase room line l v =
    let size = length-take (length line - 1) line (omega arith) in
    record {
      size = v.size;
      used = omega (arith, v.used, size);
      fits = omega (arith, v.fits, size);
      front =
          sym (take-take (l.count - 1) l.count l.buffer (omega arith))
          ∙ ap₂ (λ n xs. take (n - 1) xs) v.used v.front;
    }

Holds-type :
    (room byte : ℕ) (line : List ℕ) (l : Line)
    → length line < room
    → Holds room line l
    → Holds room
        (line ++ (byte ∷ []))
        (echo (byte ∷ []) (record l { buffer = set l.buffer l.count byte; count = suc l.count }))
Holds-type room byte line l h v = record {
  size = length-set l.buffer l.count byte ∙ v.size;
  used = omega (arith, v.used, length-append line (byte ∷ []));
  fits = omega (arith, length-append line (byte ∷ []));
  front =
      take-set l.buffer l.count byte (omega (arith, v.size, v.used))
      ∙ ap (λ (xs : List ℕ). xs ++ (byte ∷ [])) v.front;
}

-- One byte, by its kind: what the loop and the editor do before they go on.
module _ (takes : List ℕ → Bool) (fine : (text : List ℕ) → takes text ≡ true) (room byte : ℕ)
    (bytes line : List ℕ) (l : Line) (v : Holds room line l) where
  enter_step :
      is_enter byte ≡ true
      → Agrees room (readline takes (byte ∷ bytes) l) (edit room line (byte ∷ bytes))
  unfolding readline edit
  enter_step e =
      rw (e, fine (b'\n' ∷ []), enter_key byte e, edit)
        (both_done (echo (b'\n' ∷ []) l) line bytes refl refl
          (record { size = v.size; used = v.used; fits = v.fits; front = v.front }))

  -- The character before the cursor is there to be erased.
  erase_step :
      (n : ℕ)
      → is_enter byte ≡ false
      → is_erase byte ≡ true
      → l.count ≡ suc n
      → Agrees room
          (readline takes bytes (echo erasing (record l { count = n })))
          (edit room (init line) bytes)
      → Agrees room (readline takes (byte ∷ bytes) l) (edit room line (byte ∷ bytes))
  unfolding readline edit minus_one
  erase_step n e r some_left later =
      let found : minus_one l.count ≡ some n = ap minus_one some_left in
      let test : ltb 0 l.count ≡ true = ground arith in
      rw (e, r, test, found, fine erasing, erase_key byte e r, edit) later

  -- Nothing is there to be erased.
  nothing_step :
      is_enter byte ≡ false
      → is_erase byte ≡ true
      → l.count ≡ 0
      → Agrees room (readline takes bytes l) (edit room (init line) bytes)
      → Agrees room (readline takes (byte ∷ bytes) l) (edit room line (byte ∷ bytes))
  unfolding readline edit
  nothing_step e r empty later =
      let test : ltb 0 l.count ≡ false = ground arith in
      rw (e, r, test, erase_no_print byte r, erase_key byte e r, edit) later

  full_step :
      is_enter byte ≡ false
      → is_erase byte ≡ false
      → is_printable byte ≡ true
      → room ≤ length line
      → Agrees room (readline takes (byte ∷ bytes) l) (edit room line (byte ∷ bytes))
  unfolding readline edit
  full_step e r p h =
      rw
        (
          e,
          r,
          p,
          print_key byte e r p,
          edit,
          le→ltb l.count (length l.buffer) (omega (arith, v.size, v.used)),
          le→ltb (length line) room h,
        )
        (both_full l line refl refl v (omega (arith, v.fits)))

  type_step :
      is_enter byte ≡ false
      → is_erase byte ≡ false
      → is_printable byte ≡ true
      → length line < room
      → Agrees room
          (readline takes bytes (
            echo
              (byte ∷ [])
              (record l { buffer = set l.buffer l.count byte; count = suc l.count })))
          (edit room (line ++ (byte ∷ [])) bytes)
      → Agrees room (readline takes (byte ∷ bytes) l) (edit room line (byte ∷ bytes))
  unfolding readline edit store
  type_step e r p h later =
      let free : ltb l.count (length l.buffer) ≡ true =
        lt→ltb l.count (length l.buffer) (omega (arith, v.size, v.used)) in
      rw (e, r, p, print_key byte e r p, edit, free, lt→ltb (length line) room h, fine (byte ∷ []))
        later

  other_step :
      is_enter byte ≡ false
      → is_erase byte ≡ false
      → is_printable byte ≡ false
      → Agrees room (readline takes bytes l) (edit room line bytes)
      → Agrees room (readline takes (byte ∷ bytes) l) (edit room line (byte ∷ bytes))
  unfolding readline edit
  other_step e r p later = rw (e, r, p, other_key byte e r p, edit) later

init-empty : (line : List ℕ) → length line ≡ 0 → init line ≡ line
init-empty [] h = refl
init-empty (x ∷ xs) h = absurd (omega arith)

-- On a terminal that takes what is echoed, `readline` never panics and ends as the editor of a line
-- with the capacity of the buffer does: with the same line, at the front of the buffer, and its
-- length; with the error only when the line fills the buffer and another character is typed; or
-- waiting. The editor takes line feed and carriage return as the end of the line, backspace and DEL
-- as rubbing out, and the characters from 32 to 126 into the line.
pub readline-Agrees :
    (takes : List ℕ → Bool)
    → ((text : List ℕ) → takes text ≡ true)
    → (bytes line : List ℕ) (room : ℕ) (l : Line) → Holds room line l
    → Agrees room (readline takes bytes l) (edit room line bytes)
unfolding readline edit
readline-Agrees takes fine [] line room l v = both_open l line refl refl v
readline-Agrees takes fine (byte ∷ bytes) line room l v = elim (Bool-cases (is_enter byte)) [
  | inl e ↦ enter_step takes fine room byte bytes line l v e
  | inr e ↦ elim (Bool-cases (is_erase byte)) [
    | inl r ↦ elim (ℕ_discrete l.count 0) [
      | yes empty ↦ nothing_step takes fine room byte bytes line l v e r empty (
          rw (init-empty line (omega (arith, v.used)))
            (readline-Agrees takes fine bytes line room l v))
      | no left ↦ erase_step takes fine room byte bytes line l v (l.count - 1) e r (omega arith) (
          readline-Agrees takes fine bytes (init line) room
            (echo erasing (record l { count = l.count - 1 })) (Holds-erase room line l v))
    ]
    | inr r ↦ elim (Bool-cases (is_printable byte)) [
      | inr p ↦
          other_step takes fine room byte bytes line l v e r p
            (readline-Agrees takes fine bytes line room l v)
      | inl p ↦ elim (dec_lt (length line) room) [
        | no full ↦ full_step takes fine room byte bytes line l v e r p (omega arith)
        | yes free ↦ type_step takes fine room byte bytes line l v e r p free (
            readline-Agrees takes fine bytes (line ++ (byte ∷ [])) room
              (echo (byte ∷ [])
                (record l { buffer = set l.buffer l.count byte; count = suc l.count }))
              (Holds-type room byte line l free v))
      ]
    ]
  ]
]
