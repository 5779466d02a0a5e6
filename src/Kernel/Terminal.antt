-- ===== src/Kernel/Terminal.antt =====
-- kernel/src/serial.rs: `readline` on a sequence of bytes, with what it echoes. The terminal is a
-- parameter, which says whether it takes a piece of text.
pub mod Editing
use conc_os.Common.{
  ℕ, zero, suc, Option, none, some, List, [], ◌∷◌, ◌++◌, Bool, true, false, ◌&&◌, ◌||◌, ltb, leb,
  ◌==◌, if◌then◌else◌, length, set,
}

pub data TtyErr : Type 0 where
  buffer_too_small serial_err : TtyErr

-- The caller's buffer, how much of it is used, and what went out on the line.
pub record Line : Type 0 where
  pub buffer : List ℕ
  pub count : ℕ
  pub echoed : List ℕ

-- How far `readline` gets: a line, with the bytes not read; an error; a panic; or it waits for more.
pub data Outcome : Type 0 where
  entered : Line → List ℕ → Outcome
  failed : TtyErr → Line → Outcome
  panicked : Outcome
  waits : Line → Outcome

abbrev pub is_enter : ℕ → Bool
is_enter byte = byte == b'\n' || byte == 13

abbrev pub is_erase : ℕ → Bool
is_erase byte = byte == 8 || byte == 127

abbrev pub is_printable : ℕ → Bool
is_printable byte = leb 32 byte && leb byte 126

abbrev pub erasing : List ℕ
erasing = 8 ∷ 32 ∷ 8 ∷ []

abbrev pub echo : List ℕ → Line → Line
echo text l = record l { echoed = l.echoed ++ text }

-- `count -= 1` and `buffer[count] = byte`, which panic below zero and outside of the buffer.
unfoldable pub minus_one : ℕ → Option ℕ
minus_one zero = none
minus_one (suc n) = some n

unfoldable pub store : List ℕ → ℕ → ℕ → Option (List ℕ)
store buffer i byte = if ltb i (length buffer) then some (set buffer i byte) else none

module _ (takes : List ℕ → Bool) where
  -- `readline`, by the bytes that the stream gives
  unfoldable pub readline : List ℕ → Line → Outcome
  unfolding minus_one store
  readline [] l = waits l
  readline (byte ∷ bytes) l =
      let erased : Outcome = elim (minus_one l.count) [
        | none ↦ panicked
        | some n ↦
            let rest = readline bytes (echo erasing (record l { count = n })) in
            if takes erasing then rest else panicked
      ] in
      let typed : Outcome = elim (store l.buffer l.count byte) [
        | none ↦ panicked
        | some buffer ↦
            let rest =
              readline bytes
                (echo (byte ∷ []) (record l { buffer = buffer; count = suc l.count })) in
            if takes (byte ∷ []) then rest else panicked
      ] in
      let ignored = readline bytes l in
      if is_enter byte
      then (if takes (b'\n' ∷ []) then entered (echo (b'\n' ∷ []) l) bytes else failed serial_err l)
      else if is_erase byte && ltb 0 l.count
      then erased
      else if is_printable byte
      then (if ltb l.count (length l.buffer) then typed else failed buffer_too_small l)
      else ignored
