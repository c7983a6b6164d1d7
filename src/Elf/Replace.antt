-- ===== src/Elf/Replace.antt =====
-- `xh_elf_replace_function` of cpp/xhook/xh_elf.c. `old_func` is the address that the old
-- function is written to, NULL where the caller does not want it.
pub mod Laws
pub mod Total
mod Examples
use art_hook.Base.{ℕ, ◌+◌, Bool, Option, ◌==◌, ◌!=◌, if◌then◌else◌, bit_or, Text}
use art_hook.Machine.{
  Cmd, pure, null, ◌>>=◌, ◌>>◌, load64, store64, load_le, store_le, prot_read, prot_write,
}
use art_hook.Maps.Protect.{Kernel, get_addr_protect, set_addr_protect}

module _ (k : Kernel) where
  -- From `old_addr = *(void **)addr;` on. The result of restoring the protection is only logged,
  -- and the flush of the instruction cache changes nothing that the model has.
  unfoldable pub swap_function : (addr new_func old_func old_prot : ℕ) → Cmd ℕ
  unfolding load_le store_le set_addr_protect
  swap_function addr new_func old_func old_prot = do
    let need_prot = bit_or prot_read prot_write
    old_addr ← load64 addr
    if old_func != null then store64 old_func old_addr else pure tt
    store64 addr new_func
    if old_prot != need_prot then set_addr_protect k addr old_prot else pure 0
    pure 0

  -- From the change of the protection on.
  unfoldable pub unlock : (addr new_func old_func old_prot : ℕ) → Cmd ℕ
  unfolding swap_function set_addr_protect
  unlock addr new_func old_func old_prot = do
    let need_prot = bit_or prot_read prot_write
    r ← if old_prot != need_prot then set_addr_protect k addr need_prot else pure 0
    if r == 0 then swap_function addr new_func old_func old_prot else pure r

  unfoldable pub protect : Option Text → (addr new_func old_func : ℕ) → Cmd ℕ
  unfolding get_addr_protect unlock
  protect pathname addr new_func old_func = do
    (r, old_prot) ← get_addr_protect k addr pathname
    if r == 0 then unlock addr new_func old_func old_prot else pure r

  unfoldable pub replace_function : Option Text → (addr new_func old_func : ℕ) → Cmd ℕ
  unfolding load_le protect
  replace_function pathname addr new_func old_func = do
    now ← load64 addr
    if now == new_func then pure 0 else protect pathname addr new_func old_func
