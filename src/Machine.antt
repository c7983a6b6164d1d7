-- ===== src/Machine.antt =====
-- The process as the C code sees it, for the LP64 build: 64-bit pointers and `size_t`, byte
-- addressed memory with a protection for each page, and what a statement can do besides return.
pub mod Laws
pub mod Ends
pub mod Stores
pub mod Total
use art_hook.Base.{
  ℕ, zero, suc, ◌+◌, ◌-◌, ◌*◌, ◌/◌, ◌%◌, ◌^◌, bit_and, Bool, true, false, Option, none, some, Text,
  [], ◌∷◌, ◌==◌, ◌!=◌, if◌then◌else◌,
}

-- Casts to the widths of C.
abbrev pub u8 : ℕ → ℕ
u8 n = n % 2 ^ 8

abbrev pub u32 : ℕ → ℕ
u32 n = n % 2 ^ 32

abbrev pub u64 : ℕ → ℕ
u64 n = n % 2 ^ 64

-- NULL is the address 0.
abbrev pub null : ℕ
null = 0

abbrev pub page_size : ℕ
page_size = 4096

abbrev pub page : ℕ → ℕ
page a = a / page_size

-- PROT_READ, PROT_WRITE and PROT_EXEC of <sys/mman.h>.
abbrev pub prot_read : ℕ
prot_read = 1

abbrev pub prot_write : ℕ
prot_write = 2

abbrev pub prot_exec : ℕ
prot_exec = 4

-- `cell a` is the byte mapped at `a`, and `prot p` the protection of page `p`.
pub record Mem : Type 0 where
  pub cell : ℕ → Option ℕ
  pub prot : ℕ → ℕ

-- How a piece of C code ends: it returns, it is stopped by SIGSEGV at the memory reached so far,
-- it does what C leaves undefined, or the rounds given to a loop of the model are used up.
pub data Res (A : Type 0) : Type 0 where
  done : A → Mem → Res A
  segv : Mem → Res A
  undefined : Res A
  out_of_fuel : Res A

abbrev pub Cmd : Type 0 → Type 0
Cmd A = Mem → Res A

abbrev pub pure : {A : Type 0} → A → Cmd A
pure a m = done a m

module _ {A B : Type 0} where
  abbrev pub and_then : Res A → (A → Cmd B) → Res B
  and_then (done a m) k = k a m
  and_then (segv m) k = segv m
  and_then undefined k = undefined
  and_then out_of_fuel k = out_of_fuel

  infixl 5 ◌>>=◌ ◌>>◌
  abbrev pub ◌>>=◌ : Cmd A → (A → Cmd B) → Cmd B
  ◌>>=◌ c k m = and_then (c m) k

  abbrev pub ◌>>◌ : Cmd A → Cmd B → Cmd B
  ◌>>◌ c d m = and_then (c m) (λ _. d)

abbrev pub undef : {A : Type 0} → Cmd A
undef m = undefined

abbrev pub readable : Mem → ℕ → Bool
readable m a = bit_and (m.prot (page a)) prot_read != 0

abbrev pub writable : Mem → ℕ → Bool
writable m a = bit_and (m.prot (page a)) prot_write != 0

-- `*(uint8_t *)a`.
unfoldable pub load8 : ℕ → Cmd ℕ
load8 a m = elim (m.cell a) [ none ↦ segv m | some b ↦ (if readable m a then pure b else segv) m ]

-- A little-endian integer of `n` bytes at `a`.
unfoldable pub load_le : ℕ → ℕ → Cmd ℕ
load_le zero a = pure 0
load_le (suc n) a = do b ← load8 a; rest ← load_le n (a + 1); pure (b + 2 ^ 8 * rest)

abbrev pub load16 : ℕ → Cmd ℕ
load16 a = load_le 2 a

abbrev pub load32 : ℕ → Cmd ℕ
load32 a = load_le 4 a

abbrev pub load64 : ℕ → Cmd ℕ
load64 a = load_le 8 a

abbrev pub put : Mem → ℕ → ℕ → Mem
put m a b = record m { cell = λ x. if x == a then some b else m.cell x }

unfoldable pub store8 : ℕ → ℕ → Cmd (Unit {0})
store8 a b m = elim (m.cell a) [
  | none ↦ segv m
  | some _ ↦ (if writable m a then (λ m. done tt (put m a (u8 b))) else segv) m
]

unfoldable pub store_le : ℕ → ℕ → ℕ → Cmd (Unit {0})
store_le zero a v = pure tt
store_le (suc n) a v = do store8 a (v % 2 ^ 8); store_le n (a + 1) (v / 2 ^ 8)

-- `*(void **)a = v`.
abbrev pub store64 : ℕ → ℕ → Cmd (Unit {0})
store64 a v = store_le 8 a v

-- `0 == strcmp(s, (const char *)a)`: reads up to the first difference.
unfoldable pub strcmp_at : Text → ℕ → Cmd Bool
strcmp_at [] a = do b ← load8 a; pure (b == 0)
strcmp_at (c ∷ s) a = do
  b ← load8 a
  let rest = strcmp_at s (a + 1)
  if b == c then rest else pure false
