-- ===== src/Elf/Symbols/Examples.antt =====
-- Two symbols, `g` and `f`, in one chain, under a table of either kind, for cpp/xhook/xh_elf.c.
use art_hook.Base.{ℕ, ◌-◌, ◌^◌, ◌≡◌, refl, Bool, some, arith, [], ◌∷◌, ◌++◌, ◌==◌, Text}
use art_hook.Machine.{Mem, Res, load8, load_le, strcmp_at}
use art_hook.Elf.Image.{Elf, cleared}
use art_hook.Elf.Examples.{le, at_base}
use art_hook.Elf.Hash.{elf_hash, gnu_hash}
use art_hook.Elf.Symbols.{names, hash_lookup, gnu_hash_lookup_def}
use art_hook.Elf.Symbols.Chains.{
  Chain, stop, link, hash_lookup-first, GnuChain, last, more, GnuTable, gnu_hash_lookup_def-first,
}

-- The names, three symbols, the System V buckets and chain, and the GNU filter, buckets and chain.
abbrev tables : Text
tables =
    le 8 0x67006600
    ++ le 24 0
    ++ le 24 3
    ++ le 24 1
    ++ le 4 1
    ++ le 4 0
    ++ le 4 2
    ++ le 4 0
    ++ le 8 (2 ^ 64 - 1)
    ++ le 4 1
    ++ le 4 177676
    ++ le 4 177675

abbrev process : Mem
process = record { cell = at_base 4096 tables; prot = λ p. 1 }

abbrev symbol : Text
symbol = 0x66 ∷ []

abbrev sysv : Elf
sysv = record cleared { strtab = 4096; symtab = 4104; bucket = 4176; bucket_cnt = 1; chain = 4180 }

abbrev gnu : Elf
gnu = record cleared {
  strtab = 4096;
  symtab = 4104;
  bloom = 4192;
  bloom_sz = 1;
  bloom_shift = 5;
  bucket = 4200;
  bucket_cnt = 1;
  chain = 4204;
  symoffset = 1;
}

abbrev is_f : ℕ → Bool
is_f i = i == 2

sysv-Chain : Chain sysv symbol process is_f 1 (1 ∷ 2 ∷ [])
unfolding names load_le load8 strcmp_at
sysv-Chain =
    link {next = 2} (omega arith) refl refl (link {next = 0} (omega arith) refl refl (stop refl))

hash_lookup-first_example : hash_lookup 3 sysv symbol process ≡ Res.done (some 2) process
hash_lookup-first_example =
    hash_lookup-first sysv symbol process is_f 3 1 (1 ∷ 2 ∷ []) (omega arith)
      (unfold elf_hash load_le load8 in refl) sysv-Chain (omega arith)

gnu_chain : GnuChain gnu symbol process is_f 1 (1 ∷ 2 ∷ [])
unfolding gnu_hash load_le load8 strcmp_at
gnu_chain =
    more {symhash = 177676}
      (record { name = 3; name_here = refl; hash_here = refl; compared = refl; hashed = λ e. cc })
      refl
      (last {symhash = 177675}
        (record {
          name = 1;
          name_here = refl;
          hash_here = refl;
          compared = refl;
          hashed = λ e. refl;
        })
        (omega arith))

gnu_table : GnuTable gnu symbol process is_f 1 (2 ^ 64 - 1)
unfolding gnu_hash load_le load8
gnu_table = record {
  filter_words = omega arith;
  buckets = omega arith;
  shift_fits = refl;
  filter_here = refl;
  bucket_here = refl;
}

gnu_hash_lookup_def-first_example :
    gnu_hash_lookup_def 2 gnu symbol process ≡ Res.done (some 2) process
gnu_hash_lookup_def-first_example =
    gnu_hash_lookup_def-first gnu symbol process is_f 2 1 (2 ^ 64 - 1) (1 ∷ 2 ∷ []) gnu_table
      (omega arith) gnu_chain (λ _. unfold gnu_hash in refl) (omega arith)
