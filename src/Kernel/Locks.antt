-- ===== src/Kernel/Locks.antt =====
-- kernel/src/mutex.rs: `InterruptMutex` on the one processor that runs the kernel, as a step
-- relation. A context is a run of code with the guards that it holds, newest first, and what is
-- left of the call of `lock` or of the drop that it is in; an interrupt handler runs in a context of
-- its own on top of the one that it interrupts, which it can do between any two actions.
pub mod Phases
pub mod Safety
use conc_os.Common.{
  ℕ, ◌≡◌, List, [], ◌∷◌, Bool, true, false, ◌||◌, ◌==◌, if◌then◌else◌, Option, none, some,
}

-- `InterruptMutexGuard`: which mutex it locks, and `saved_int`.
pub record Guard : Type 0 where
  pub mutex : ℕ
  pub saved_int : Bool

-- What `lock` and `drop` do, action by action: read the interrupt flag, disable interrupts if it
-- was set, acquire the inner spinlock, which makes the guard; and release the inner spinlock of the
-- newest guard, and enable interrupts if the guard found them so.
pub data Action : Type 0 where
  save_flag disable_if_saved : Action
  acquire : ℕ → Action
  release : Action
  enable_if : Bool → Action

-- `InterruptMutex::lock`
unfoldable pub lock : ℕ → List Action
lock m = save_flag ∷ disable_if_saved ∷ acquire m ∷ []

-- `drop` of a guard
unfoldable pub unlock : Guard → List Action
unlock g = release ∷ enable_if g.saved_int ∷ []

-- `saved_int` here is the local variable of `lock`.
pub record Context : Type 0 where
  pub guards : List Guard
  pub saved_int : Bool
  pub todo : List Action

-- Whether interrupts are enabled, the code that runs, and the code that it interrupted, innermost
-- first.
pub record Cpu : Type 0 where
  pub enabled : Bool
  pub running : Context
  pub interrupted : List Context

-- Whether the inner spinlock of a mutex is taken.
abbrev pub holds : ℕ → List Guard → Bool
holds m [] = false
holds m (g ∷ guards) = m == g.mutex || holds m guards

abbrev pub holds_any : ℕ → List Context → Bool
holds_any m [] = false
holds_any m (context ∷ rest) = holds m context.guards || holds_any m rest

abbrev without_newest : List Guard → List Guard
without_newest [] = []
without_newest (g ∷ guards) = guards

-- The next action of the running code. It has none outside of `lock` and `drop`, and none while it
-- spins on a lock that is taken.
unfoldable pub advance : List Action → Cpu → Option Cpu
advance [] c = none
advance (save_flag ∷ rest) c =
    some (record c { running = record c.running { saved_int = c.enabled; todo = rest } })
advance (disable_if_saved ∷ rest) c = some (record c {
  enabled = if c.running.saved_int then false else c.enabled;
  running = record c.running { todo = rest };
})
advance (acquire m ∷ rest) c =
    if holds m c.running.guards || holds_any m c.interrupted
    then none
    else some (record c {
      running = record c.running {
        guards = record { mutex = m; saved_int = c.running.saved_int } ∷ c.running.guards;
        todo = rest;
      };
    })
advance (release ∷ rest) c = some (record c {
  running = record c.running { guards = without_newest c.running.guards; todo = rest };
})
advance (enable_if saved ∷ rest) c = some (record c {
  enabled = if saved then true else c.enabled;
  running = record c.running { todo = rest };
})

-- The running code calls `lock`, or drops a guard.
abbrev pub begin : List Action → Cpu → Cpu
begin actions c = record c { running = record c.running { todo = actions } }

abbrev pub fresh : Context
fresh = record { guards = []; saved_int = false; todo = [] }

-- A device interrupts, which the processor lets happen only while interrupts are enabled and which
-- disables them; and the handler returns, which enables them again.
unfoldable pub enter : Cpu → Cpu
enter c = record { enabled = false; running = fresh; interrupted = c.running ∷ c.interrupted }

unfoldable pub leave : Context → List Context → Cpu
leave context rest = record { enabled = true; running = context; interrupted = rest }

pub data Step (c : Cpu) : Cpu → Type 0 where
  locks : (m : ℕ) {d : Cpu} → c.running.todo ≡ [] → d ≡ begin (lock m) c → Step c d
  unlocks :
      (g : Guard) (rest : List Guard) {d : Cpu}
      → c.running.todo ≡ []
      → c.running.guards ≡ g ∷ rest
      → d ≡ begin (unlock g) c
      → Step c d
  acts : {d : Cpu} → advance c.running.todo c ≡ some d → Step c d
  interrupts : {d : Cpu} → c.enabled ≡ true → d ≡ enter c → Step c d
  returns :
      (context : Context) (rest : List Context) {d : Cpu}
      → c.running.todo ≡ []
      → c.running.guards ≡ []
      → c.interrupted ≡ context ∷ rest
      → d ≡ leave context rest
      → Step c d

-- From the boot on, where interrupts are disabled or enabled and nothing is locked.
abbrev pub boot : Bool → Cpu
boot enabled = record { enabled = enabled; running = fresh; interrupted = [] }

pub data Reach (enabled : Bool) : Cpu → Type 0 where
  start : Reach enabled (boot enabled)
  later : {c d : Cpu} → Reach enabled c → Step c d → Reach enabled d
