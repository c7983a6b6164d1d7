-- ===== src/Lib.antt =====
-- ArtHook: replacing the functions that the loaded ELF images import, and methods of the Android
-- runtime.
--
-- The native part of the repository hooks code in a running Android process, in two ways. Its C
-- code, cpp/xhook, hooks imported functions: the caller registers hooks, patterns for image paths
-- with a symbol and a new function, and rules that exclude images or symbols (`xh_core_register`,
-- `xh_core_ignore`). A refresh (`xh_core_refresh`) reads /proc/self/maps, picks the images that
-- some hook is for, checks the ELF header that stands at their base address
-- (`xh_elf_check_elfheader`), reads their dynamic section (`xh_elf_init`), finds the symbol
-- (`xh_elf_find_symidx_by_name`) and writes the new function into the slots that the relocation
-- tables name (`xh_elf_hook`), after it has made the page writable (xh_util.c). All of this reads
-- memory that may not be there, under a handler for SIGSEGV.
--
-- Its C++ code, cpp/art, hooks Java methods. It finds out where the runtime keeps the members of a
-- method (`GetBaseOffset`, `CalculateOtherOffset`) and looks up functions of libart.so
-- (`ARTSymbol::GetSymbol`, `GetBridgeList`). A hook (`ArtMethod::Hook`) stops the threads, records
-- and clones the method, turns it into a native one and sets its entry points; `InvokeOriginal`
-- calls the clone. The library is loaded into the zygote, where it hooks `JNI_CreateJavaVM` with
-- xHook, or into an app by `JNI_OnLoad`.
--
-- The files and the code that they model:
--   Machine: memory of bytes with a protection for each page, and the outcomes of a piece of C code:
--     a return, SIGSEGV, behaviour that C leaves undefined, and no rounds left in a loop of the
--     model. Machine/Laws, Machine/Stores, Machine/Ends and
--     Machine/Total carry the proofs about such runs.
--   Reloc: the relocation iterators of cpp/xhook/xh_elf.c. Reloc/Plain is
--     `xh_elf_plain_reloc_iterator_*`, Reloc/Sleb128 is `xh_elf_sleb128_decoder_*`, and Reloc/Packed
--     is `xh_elf_packed_reloc_iterator_*`.
--   Elf: the rest of cpp/xhook/xh_elf.c. `xh_elf_t` is the record Elf of Elf/Image. Elf/Header is
--     `xh_elf_check_elfheader`, Elf/Hash the two hash functions, Elf/Symbols the lookups, Elf/Init is
--     `xh_elf_init` and `xh_elf_check`, Elf/Replace is `xh_elf_replace_function`, and Elf/Hook is
--     `xh_elf_find_and_replace_func` and `xh_elf_hook`.
--   Maps: `fgets` and `sscanf` on /proc/self/maps. Maps/Protect is cpp/xhook/xh_util.c.
--   Core: cpp/xhook/xh_core.c. Core/State has its static variables, the record Core, and the record
--     Env of what it calls; Core/Tree is the interface to the tree of cpp/xhook/tree.h.
--     Core/Registry is `xh_core_register` and `xh_core_ignore`, Core/Select the loops over hooks and
--     rules, Core/Guard the SIGSEGV protection, Core/Refresh is `xh_core_refresh_impl`, and
--     Core/Lifecycle is `xh_core_refresh`, `xh_core_clear` and the initialisation. Core/Thread is
--     `xh_core_refresh_thread_func`, step by step, Core/System the calls and the steps of that thread
--     in any order, and Core/Interface the public functions of cpp/xhook/xhook.c and
--     cpp/xhook/xh_jni.c.
--   Art: cpp/art and cpp/base. Art/State has the static variables, the record Statics, and the
--     record Runtime of what is called outside; Art/Members is cpp/base/cxx_helper.h, Art/Jni is
--     cpp/base/jni_helper.cpp and cpp/art/thread.cpp, Art/Symbols is cpp/art/ARTSymbol.cpp,
--     Art/Suspend is cpp/art/scoped_thread_state_change.cc and Art/Modifiers is
--     cpp/art/modifiers.h. Art/Method has the accessors of cpp/art/ArtMethod.cpp and ArtMethod.h,
--     Art/Clone is `ArtMethod::Clone`, Art/Hook is `Hook`, `Backup`, `InvokeOriginal` and
--     `DealGCRoot`, Art/Layout the offsets and the initialisation, and Art/Load the entry points of
--     cpp/native-lib.cpp, cpp/art/native_load.cpp, cpp/art/test.cpp and cpp/art/hook_module.
--     Art/Method/View is the specification: a method in memory as the record Fields. Art/Hook/Steps
--     has `hooked`, what a hook makes of the record, and the modules beside it prove that the code
--     does this to memory.
--   Modules called Examples have concrete runs.
--
-- A function of the C code that reads or writes memory is a function from the memory to an
-- outcome; one that works on the static variables takes and gives back the record Core, or
-- Statics. Pointers are 64-bit numbers and casts are written out (`u32`, `u64`). The build is LP64
-- for aarch64.
--
-- Rounds: the loops over lists and over the bytes, headers and entries that a size bounds are
-- structural. A plain table gets one round more than its size has bytes, and Elf/Hook/Ends shows
-- that this is enough. The chain walks of a lookup and the loop over a packed table take their
-- rounds as an argument, since a chain in memory may be a cycle, on which the C code does not end
-- either. Elf/Symbols/Chains has the rounds that a chain with an end takes, and Elf/Hook/PackedEnds
-- those of a packed table.
--
-- Parameters: the text of /proc/self/maps and `mprotect` (the record Kernel), <regex.h>, `malloc`,
-- `sigaction`, `pthread_create` and the tree (the record Env, with the laws of PathTree). The
-- queues of cpp/xhook/queue.h are lists. For cpp/art: DlOpen and DlSym of cpp/elf, `malloc`, the
-- functions of the runtime and of JNI, the slot of the thread and the SDK version (the record
-- Runtime, with the laws of IsPolite, and of IsLive and JniLives for runs that return, where a proof
-- needs them), and the addresses of the library's own functions and its calls of xHook (the record
-- Library).
--
-- The condition variable of the refresh thread is not modelled: a thread that waits may test again
-- at any time, and `pthread_cond_signal` has no counterpart, so nothing here says that a waiting
-- thread is woken. Nor is the action for SIGSEGV from before the handler, which is restored: the model
-- has only whether the handler is installed. A line of /proc/self/maps that ends before its path has
-- undefined behaviour as its outcome, which no theorem on SIGSEGV excludes.
--
-- Not modelled: several calling threads at once (Core/System has one beside the refresh thread, and
-- a call or a refresh is one step there, except that a clear waits), the dump functions under
-- XH_ELF_DEBUG, logging but for its priority, the version strings, the flush of the instruction
-- cache, freed memory, cpp/elf, which is taken from the project whale, cpp/art/JitCompiler.cpp,
-- which nothing uses, and in cpp/art the order in which other threads see the writes of a hook.
pub mod Base
pub mod Machine
pub mod Reloc
pub mod Elf
pub mod Maps
pub mod Core
pub mod Art
