-- ===== src/Core/State.antt =====
-- The state of cpp/xhook/xh_core.c, and what it takes from outside: <regex.h>, the allocator, the
-- kernel and the tree of cpp/xhook/tree.h.
use art_hook.Base.{ℕ, Bool, true, false, Option, List, [], Text}
use art_hook.Maps.Protect.{Kernel}
use art_hook.Core.Tree.{PathTree}

-- What the C code calls. `malloc n` is whether the allocation number `n` succeeds.
pub record Env : Type 1 where
  pub Regex : Type 0
  pub regcomp : Text → Option Regex
  pub regexec : Regex → Text → Bool
  pub malloc : ℕ → Bool
  pub kernel : Kernel
  pub sigaction : ℕ → Option ℕ
  pub pthread_create : ℕ → Bool
  pub tree : PathTree
  pub fuel : ℕ

module _ (env : Env) where
  -- `xh_core_hook_info_t` and `xh_core_ignore_info_t`, without the link of the queue.
  pub record HookInfo : Type 0 where
    pub pathname_regex : env.Regex
    pub symbol : Text
    pub new_func : ℕ
    pub old_func : ℕ

  -- No symbol stands for all symbols.
  pub record IgnoreInfo : Type 0 where
    pub pathname_regex : env.Regex
    pub symbol : Option Text

  -- The static variables. `xh_core_map_info` maps a path to its `base_addr`: the `elf` of an item
  -- is written by `xh_elf_init` before every read, so it is no state. `handler` is whether
  -- `xh_core_sigsegv_handler` is installed, and `calls` counts the calls that `env` answers.
  pub record Core : Type 0 where
    pub sigsegv_enable : Bool
    pub sigsegv_flag : Bool
    pub handler : Bool
    pub hook_info : List HookInfo
    pub ignore_info : List IgnoreInfo
    pub map_info : env.tree.Tree
    pub inited : Bool
    pub init_ok : Bool
    pub async_inited : Bool
    pub async_init_ok : Bool
    pub refresh_thread_running : Bool
    pub refresh_thread_do : Bool
    pub calls : ℕ

  -- The initial values.
  abbrev pub core_start : Core
  core_start = record {
    sigsegv_enable = true;
    sigsegv_flag = false;
    handler = false;
    hook_info = [];
    ignore_info = [];
    map_info = env.tree.empty;
    inited = false;
    init_ok = false;
    async_inited = false;
    async_init_ok = false;
    refresh_thread_running = false;
    refresh_thread_do = false;
    calls = 0;
  }
