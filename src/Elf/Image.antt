-- ===== src/Elf/Image.antt =====
-- `xh_elf_t`, the error codes of cpp/xhook/xh_errno.h, and the walks over the program headers.
use art_hook.Base.{
  ℕ, zero, suc, ◌+◌, ◌*◌, Bool, false, Option, none, some, ◌==◌, if◌then◌else◌, Text,
}
use art_hook.Machine.{Cmd, pure, null, ◌>>=◌, load16, load32, load64, load_le}

abbrev pub err_unknown : ℕ
err_unknown = 1001

abbrev pub err_inval : ℕ
err_inval = 1002

abbrev pub err_nomem : ℕ
err_nomem = 1003

abbrev pub err_notfnd : ℕ
err_notfnd = 1005

abbrev pub err_badmaps : ℕ
err_badmaps = 1006

abbrev pub err_format : ℕ
err_format = 1007

abbrev pub err_elfinit : ℕ
err_elfinit = 1008

abbrev pub err_segverr : ℕ
err_segverr = 1009

-- Pointers into the image are addresses; `pathname` is NULL before init.
pub record Elf : Type 0 where
  pub pathname : Option Text
  pub base_addr : ℕ
  pub bias_addr : ℕ
  pub ehdr : ℕ
  pub phdr : ℕ
  pub dyn : ℕ
  pub dyn_sz : ℕ
  pub strtab : ℕ
  pub symtab : ℕ
  pub relplt : ℕ
  pub relplt_sz : ℕ
  pub reldyn : ℕ
  pub reldyn_sz : ℕ
  pub relandroid : ℕ
  pub relandroid_sz : ℕ
  pub bucket : ℕ
  pub bucket_cnt : ℕ
  pub chain : ℕ
  pub chain_cnt : ℕ
  pub symoffset : ℕ
  pub bloom : ℕ
  pub bloom_sz : ℕ
  pub bloom_shift : ℕ
  pub is_use_rela : Bool
  pub is_use_gnu_hash : Bool

-- `memset(self, 0, sizeof(xh_elf_t))`.
abbrev pub cleared : Elf
cleared = record {
  pathname = none;
  base_addr = 0;
  bias_addr = 0;
  ehdr = null;
  phdr = null;
  dyn = null;
  dyn_sz = 0;
  strtab = null;
  symtab = null;
  relplt = 0;
  relplt_sz = 0;
  reldyn = 0;
  reldyn_sz = 0;
  relandroid = 0;
  relandroid_sz = 0;
  bucket = null;
  bucket_cnt = 0;
  chain = null;
  chain_cnt = 0;
  symoffset = 0;
  bloom = null;
  bloom_sz = 0;
  bloom_shift = 0;
  is_use_rela = false;
  is_use_gnu_hash = false;
}

-- Fields of `Elf64_Ehdr`, `Elf64_Phdr` and `Elf64_Sym`.
abbrev pub e_phoff : ℕ → Cmd ℕ
e_phoff ehdr = load64 (ehdr + 32)

abbrev pub e_phnum : ℕ → Cmd ℕ
e_phnum ehdr = load16 (ehdr + 56)

abbrev pub sizeof_phdr : ℕ
sizeof_phdr = 56

abbrev pub p_type : ℕ → Cmd ℕ
p_type phdr = load32 phdr

abbrev pub p_offset : ℕ → Cmd ℕ
p_offset phdr = load64 (phdr + 8)

abbrev pub p_vaddr : ℕ → Cmd ℕ
p_vaddr phdr = load64 (phdr + 16)

abbrev pub p_memsz : ℕ → Cmd ℕ
p_memsz phdr = load64 (phdr + 40)

abbrev pub st_name : ℕ → ℕ → Cmd ℕ
st_name symtab i = load32 (symtab + 24 * i)

-- The two segment walks differ in the test only. `n` headers are left from `phdr` on.
unfoldable pub first_segment : (ℕ → Cmd Bool) → ℕ → ℕ → Cmd (Option ℕ)
first_segment test zero phdr = pure none
first_segment test (suc n) phdr = do
  hit ← test phdr
  let rest = first_segment test n (phdr + sizeof_phdr)
  if hit then pure (some phdr) else rest

-- The condition of the loop reads `e_phnum` again before each round, at one address, so it is
-- read once here.
unfoldable pub get_first_segment_by_type : Elf → ℕ → Cmd (Option ℕ)
unfolding first_segment load_le
get_first_segment_by_type self type = do
  phnum ← e_phnum self.ehdr
  first_segment (λ phdr. do t ← p_type phdr; pure (t == type)) phnum self.phdr

-- `p_offset` is read only where the type matches.
unfoldable pub get_first_segment_by_type_offset : Elf → ℕ → ℕ → Cmd (Option ℕ)
unfolding first_segment load_le
get_first_segment_by_type_offset self type offset = do
  phnum ← e_phnum self.ehdr
  first_segment
      (λ phdr. do
        t ← p_type phdr
        (if t == type then (do o ← p_offset phdr; pure (o == offset)) else pure false))
      phnum self.phdr
