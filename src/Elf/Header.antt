-- ===== src/Elf/Header.antt =====
-- `xh_elf_check_elfheader` of cpp/xhook/xh_elf.c, for aarch64.
pub mod Laws
pub mod Total
use art_hook.Base.{
  ℕ, zero, suc, ◌+◌, Bool, true, false, List, [], ◌∷◌, ◌&&◌, ◌||◌, ◌==◌, ◌!=◌, if◌then◌else◌, Text,
}
use art_hook.Machine.{Cmd, pure, ◌>>=◌, load8, load16, load32, load_le}
use art_hook.Elf.Image.{err_format}

-- `0 == memcmp(a, bytes, n)`, read up to the first difference.
unfoldable pub memcmp_at : Text → ℕ → Cmd Bool
memcmp_at [] a = pure true
memcmp_at (c ∷ s) a = do
  b ← load8 a
  let rest = memcmp_at s (a + 1)
  if b == c then rest else pure false

-- ELFMAG.
abbrev pub elf_magic : Text
elf_magic = 0x7f ∷ b'E' ∷ b'L' ∷ b'F' ∷ []

abbrev pub elf_class64 : ℕ
elf_class64 = 2

abbrev pub elf_data2lsb : ℕ
elf_data2lsb = 1

abbrev pub ev_current : ℕ
ev_current = 1

abbrev pub et_exec : ℕ
et_exec = 2

abbrev pub et_dyn : ℕ
et_dyn = 3

abbrev pub em_aarch64 : ℕ
em_aarch64 = 183

-- `if(cond) return XH_ERRNO_FORMAT;` and then the rest.
abbrev reject_if : Bool → Cmd ℕ → Cmd ℕ
reject_if bad rest = if bad then pure err_format else rest

unfoldable pub check_elfheader : ℕ → Cmd ℕ
unfolding memcmp_at load_le
check_elfheader base_addr = do
  magic ← memcmp_at elf_magic base_addr
  (if magic
      then (do
        class ← load8 (base_addr + 4)
        reject_if (class != elf_class64) (do
          encoding ← load8 (base_addr + 5)
          reject_if (encoding != elf_data2lsb) (do
            version ← load8 (base_addr + 6)
            reject_if (version != ev_current) (do
              type ← load16 (base_addr + 16)
              reject_if ((type != et_exec) && (type != et_dyn)) (do
                machine ← load16 (base_addr + 18)
                reject_if (machine != em_aarch64) (do
                  version ← load32 (base_addr + 20)
                  reject_if (version != ev_current) (pure 0)))))))
      else pure err_format)
