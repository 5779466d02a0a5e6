-- ===== src/Kernel/Scenarios.antt =====
-- Concrete inputs of the kernel's generator, timers, screen, terminal, configuration space and
-- executor.
use conc_os.Common.{
  ℕ, zero, suc, ◌+◌, ◌-◌, ◌*◌, ◌/◌, ◌%◌, ◌^◌, ◌≤◌, ◌<◌, ◌≡◌, ◌≢◌, ◌↔◌, refl, List, [], ◌∷◌, ◌++◌,
  true, false, none, some, ◌==◌, if◌then◌else◌, length, replicate, get_or, All, take, arith,
}
use conc_os.Common.Map.{lookup}
use conc_os.Kernel.Random.{Hardware, Asked, Cipher, Csprng, virtio, new, fill, next}
use conc_os.Kernel.Random.Generator.{IsGenerator, new-IsGenerator}
use conc_os.Kernel.Random.Keystream.{stream, fill-stream}
use conc_os.Kernel.Random.Fallback.{next-ne-zero}
use conc_os.Kernel.Random.Seed.{stirred_iff}
use conc_os.Kernel.Entropy.{Entropy, get_random, init_entropy, entropy_is_cryptographic, mode_of}
use conc_os.Kernel.Entropy.Supply.{IsSupply, get_random_total, init_entropy-IsSupply}
use conc_os.Kernel.Timers
use conc_os.Kernel.Timers.{TimeTask, Clock, Event, tick, run, now_ms}
use conc_os.Kernel.Timers.Expiry.{IsClock, Expired, tick-Expired}
use conc_os.Kernel.Timers.Alarm.{Woke, alarm-Woke}
use conc_os.Kernel.Screen.{Writer, ScreenChar, write_str}
use conc_os.Kernel.Screen.Cursor.{IsWriter, place, cell, cursor, drawn, write_str_draws}
use conc_os.Kernel.Terminal.{Line, readline}
use conc_os.Kernel.Terminal.Editing.{Agrees, edit, readline-Agrees}
use conc_os.Kernel.Pci.{PciAddress, pci_config_address, pci_address_to_u32}
use conc_os.Kernel.Pci.Address.{pci_config_address-fields, pci_address_to_u32-eq-pci_config_address}
use conc_os.Kernel.Executor.{Executor, Polled, run_ready_tasks, drained}
use conc_os.Kernel.Executor.Drain.{IsExecutor, run_ready_tasks_drains}
use conc_os.Common.{Option}

next-ne-zero_example : (next 12344 0 < 2 ^ 64) × (next 12344 0 ≢ 0)
next-ne-zero_example = next-ne-zero 12344 0 (omega arith) (omega arith)

-- A cipher that repeats the first byte of its seed.
abbrev repeating : Cipher ℕ
repeating = record { from_seed = λ seed. get_or seed 0 0; fill_bytes = λ r n. (replicate n r, r) }

abbrev hardware : Hardware
hardware = record {
  has_virtio = true;
  request_entropy = λ n. some (32, replicate 32 9);
  has_rdrand = false;
  rdrand_step = λ n. (false, 0);
  rdtsc = λ n. 12344;
}

abbrev never_asked : Asked
never_asked = record { requests = 0; steps = 0; readings = 0 }

repeating_whole : (r : ℕ) → length (repeating.fill_bytes r 64).0 ≡ 64
repeating_whole r = refl

abbrev fresh_generator : Csprng ℕ
fresh_generator = new repeating hardware (replicate 32 5)

fresh_generator-IsGenerator : IsGenerator fresh_generator
fresh_generator-IsGenerator = new-IsGenerator repeating hardware repeating_whole (replicate 32 5)

fill-stream_example :
    (g' : Csprng ℕ) × (a' : Asked) × (fill repeating hardware 40 fresh_generator never_asked
      ≡ some (take 40 (stream repeating hardware 2 fresh_generator never_asked), g', a'))
    × IsGenerator g'
fill-stream_example =
    fill-stream repeating hardware repeating_whole 40 2 fresh_generator never_asked
      fresh_generator-IsGenerator small_request
  where
    small_request : 40 ≤ 32 - fresh_generator.buf_pos + 32 * 2
    small_request = unfold new in omega arith

abbrev seed : List ℕ
seed = 1 ∷ 2 ∷ []

abbrev fresh : List ℕ
fresh = 3 ∷ 4 ∷ []

stirred_iff_example : (seed ≡ seed) ↔ (fresh ≡ fresh)
stirred_iff_example =
    stirred_iff repeating hardware seed seed fresh fresh virtio (ground arith) (ground arith)
      (ground arith) (ground arith) refl refl refl refl

abbrev unseeded : Entropy ℕ
unseeded = record { csprng = none; fallback = 0; entropy_mode = none; asked = never_asked }

unseeded-IsSupply : IsSupply unseeded
unseeded-IsSupply = record { generator = λ g e. absurd (ground arith); word = omega arith }

stamps_small : (n : ℕ) → hardware.rdtsc n < 2 ^ 64
stamps_small n = omega arith

get_random_total_example :
    (out : List ℕ) × (e' : Entropy ℕ) × (get_random repeating hardware 11 unseeded ≡ some (out, e'))
    × (length out ≡ 11)
    × IsSupply e'
    × (mode_of e' ≡ mode_of unseeded)
get_random_total_example =
    get_random_total repeating hardware repeating_whole stamps_small 11 unseeded unseeded-IsSupply

init_entropy-IsSupply_example :
    IsSupply (init_entropy repeating hardware unseeded).1
    × ((entropy_is_cryptographic (init_entropy repeating hardware unseeded).1 ≡ true)
        ↔ ((g : Csprng ℕ) × ((init_entropy repeating hardware unseeded).1.csprng ≡ some g)))
init_entropy-IsSupply_example =
    init_entropy-IsSupply repeating hardware repeating_whole stamps_small unseeded refl refl
      (omega arith)

-- A clock at five milliseconds with a sleeper for the sixth and one for the eighth.
abbrev clock : Clock
clock = record {
  timers =
      record { deadline = 6; id = 0; waker = 3 } ∷ record { deadline = 8; id = 1; waker = 4 } ∷ [];
  ticks = 5;
  next_id = 2;
  woken = [];
}

clock-IsClock : IsClock clock
unfolding now_ms
clock-IsClock = record { ordered = ground arith; pending = ground arith }

tick-Expired_example :
    (woken : List ℕ) × ((tick clock).woken ≡ clock.woken ++ woken)
    × Expired (now_ms (tick clock).ticks) clock.timers woken (tick clock).timers
tick-Expired_example = tick-Expired clock clock-IsClock

abbrev nap : TimeTask
nap = record { deadline_ms = 7; task_id = 2 }

abbrev meanwhile : List Event
meanwhile = Timers.ticks ∷ Timers.makes 3 ∷ Timers.ticks ∷ []

clock_before : now_ms clock.ticks < 7
unfolding now_ms
clock_before = omega arith

clock_after : now_ms (run (Timers.polls nap 9 ∷ meanwhile) clock).ticks ≡ 7
unfolding run Timers.step now_ms
clock_after = refl

alarm-Woke_example : Woke 9 (run (Timers.polls nap 9 ∷ meanwhile) clock).woken
alarm-Woke_example =
    alarm-Woke nap 9 clock meanwhile clock-IsClock clock_before (tt, (tt, (tt, tt)))
      (omega (arith, clock_after))

abbrev blank : ScreenChar
blank = record { ascii_character = 32; color = 7 }

abbrev writer : Writer
writer = record {
  position = record { row = 24; col = 78 };
  color = 9;
  chars = replicate 25 (replicate 80 blank);
}

blank_rows :
    (n : ℕ) → All (λ (line : List ScreenChar). length line ≡ 80) (replicate n (replicate 80 blank))
blank_rows zero = tt
blank_rows (suc n) = (refl, blank_rows n)

writer-IsWriter : IsWriter writer
writer-IsWriter = record {
  row_inside = omega arith;
  col_inside = omega arith;
  height = refl;
  widths = blank_rows 25;
}

write_str_draws_example :
    (w' : Writer) × (write_str (b'o' ∷ b'k' ∷ b'!' ∷ []) writer ≡ some w')
    × IsWriter w'
    × (place w'.position ≡ cursor (place writer.position) (b'o' ∷ b'k' ∷ b'!' ∷ []))
    × ((p : ℕ)
        → cell w'.chars p
          ≡ drawn
              (cell writer.chars)
              writer.color
              (place writer.position)
              (b'o' ∷ b'k' ∷ b'!' ∷ [])
              p)
write_str_draws_example = write_str_draws (b'o' ∷ b'k' ∷ b'!' ∷ []) writer writer-IsWriter

cursor_wraps : cursor (place writer.position) (b'o' ∷ b'k' ∷ b'!' ∷ []) ≡ 1
unfolding cursor
cursor_wraps = refl

abbrev three_bytes : Line
three_bytes = record { buffer = 0 ∷ 0 ∷ 0 ∷ []; count = 0; echoed = [] }

-- A line with a correction.
abbrev keys : List ℕ
keys = b'h' ∷ b'o' ∷ 127 ∷ b'i' ∷ 13 ∷ b'x' ∷ []

readline-Agrees_example : Agrees 3 (readline (λ text. true) keys three_bytes) (edit 3 [] keys)
readline-Agrees_example =
    readline-Agrees (λ text. true) (λ text. refl) keys [] 3 three_bytes
      (record { size = refl; used = refl; fits = omega arith; front = refl })

pci_config_address-fields_example :
    (pci_config_address 3 31 7 0x3e / 2 ^ 31 ≡ 1)
    × (pci_config_address 3 31 7 0x3e / 2 ^ 16 % 256 ≡ 3)
    × (pci_config_address 3 31 7 0x3e / 2 ^ 11 % 32 ≡ 31)
    × (pci_config_address 3 31 7 0x3e / 2 ^ 8 % 8 ≡ 7)
    × (pci_config_address 3 31 7 0x3e % 256 ≡ 0x3e / 4 * 4)
pci_config_address-fields_example =
    pci_config_address-fields 3 31 7 0x3e (omega arith) (omega arith) (omega arith) (omega arith)

abbrev function : PciAddress
function = record { segment = 0; bus = 3; device = 31; function = 7 }

pci_address_to_u32-eq-pci_config_address_example :
    pci_address_to_u32 function 0x13e ≡ pci_config_address 3 31 7 (0x13e % 256)
pci_address_to_u32-eq-pci_config_address_example =
    pci_address_to_u32-eq-pci_config_address function 0x13e

-- Futures that wake themselves as long as the world, a number, is not used up.
abbrev countdown : ℕ → ℕ → ℕ → Polled ℕ ℕ
countdown waker f s = record {
  ready = s == 0;
  future = suc f;
  wakes = if s == 0 then [] else waker ∷ [];
  world = s - 1;
}

countdown_spends :
    (waker f s : ℕ) → length (countdown waker f s).wakes + (countdown waker f s).world ≤ s
countdown_spends waker f s = ground arith

abbrev one_task : Executor ℕ
one_task = record { tasks = (5, 0) ∷ []; task_queue = 5 ∷ 6 ∷ []; waker_cache = []; next_id = 6 }

no_waker : {w : ℕ} → ◌≢◌ {A = Option ℕ} none (some w)
no_waker e = cc

one_task-IsExecutor : IsExecutor one_task
unfolding lookup
one_task-IsExecutor = record {
  own = λ id w e. absurd (no_waker e);
  live = λ id w e. absurd (no_waker e);
}

run_ready_tasks_drains_example :
    (e' : Executor ℕ) × (s' : ℕ) × (run_ready_tasks countdown 7 one_task 4 ≡ drained e' s')
    × (e'.task_queue ≡ [])
    × IsExecutor e'
run_ready_tasks_drains_example =
    run_ready_tasks_drains countdown (λ s. s) countdown_spends 7 one_task 4 one_task-IsExecutor
      (omega arith) (omega arith)
