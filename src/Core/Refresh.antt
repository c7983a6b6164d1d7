-- ===== src/Core/Refresh.antt =====
-- `xh_core_refresh_impl` of cpp/xhook/xh_core.c. The text of /proc/self/maps is taken as it stands
-- when the file is opened.
pub mod Invariant
pub mod Laws
pub mod Lines
use art_hook.Base.{
  ℕ, zero, suc, ◌+◌, Bool, true, false, not, Option, none, some, List, [], ◌∷◌, ◌&&◌, ◌||◌, ◌==◌,
  ◌!=◌, if◌then◌else◌, Text,
}
use art_hook.Machine.{Mem, Res, done, Cmd, pure, undef, ◌>>=◌}
use art_hook.Maps.{lines, scan_mapping, Mapping, char_at, skip_spaces}
use art_hook.Core.State.{Env, Core}
use art_hook.Core.Registry.{alloc}
use art_hook.Core.Select.{wanted}
use art_hook.Core.Guard.{check_elf_header, hook}

-- `pathname[pathname_len - 1] == '\n'` is cut off.
unfoldable pub chomp : Text → Text
chomp [] = []
chomp (c ∷ []) = if c == 0x0a then [] else c ∷ []
chomp (c ∷ d ∷ s) = c ∷ chomp (d ∷ s)

-- The path of a line, none where the line is passed over.
unfoldable pub path_of : Text → Option Text
unfolding chomp skip_spaces
path_of tail = elim (chomp (skip_spaces tail)) [
  | [] ↦ none
  | c ∷ s ↦ if c == b'[' then none else some (c ∷ s)
]

-- What a line asks for: nothing, a region to look at, or a read of `pathname_pos` that `sscanf` has
-- not set on this line. The C code then reads what an earlier line left there, or an indeterminate
-- value on the first line; the kernel writes no such line, and the model gives no result for it.
pub data Candidate : Type 0 where
  pass : Candidate
  region : (base_addr : ℕ) (pathname : Text) → Candidate
  unset : Candidate

unfoldable pub candidate : Text → Candidate
unfolding path_of scan_mapping
candidate line = elim (scan_mapping line) [
  | none ↦ pass
  | some r ↦
      let named : Candidate = elim r.tail [
        | none ↦ unset
        | some tail ↦ elim (path_of tail) [ none ↦ pass | some p ↦ region r.base_addr p ]
      ] in
      if (char_at r.perm 0 != b'r') || (char_at r.perm 3 != b'p') || (r.offset != 0)
      then pass
      else named
]

module _ (env : Env) where
  -- The loop's state: the static variables, `map_info` among them, and `map_info_refreshed`.
  pub record Refreshing : Type 0 where
    pub core : Core env
    pub refreshed : env.tree.Tree

  unfoldable pub hook_then : Refreshing → (pathname : Text) (base_addr : ℕ) → Cmd Refreshing
  unfolding hook
  hook_then s pathname base_addr = do
    (_, core) ← hook env s.core pathname base_addr
    pure (record s { core = core })

  -- An image that the map has: it moves to the new tree, and is hooked again if its base changed.
  unfoldable pub update_image : Refreshing → (pathname : Text) (base_addr old : ℕ) → Cmd Refreshing
  unfolding hook_then
  update_image s pathname base_addr old =
      let core = record s.core { map_info = env.tree.remove pathname s.core.map_info } in
      let (repeated, tree) = env.tree.insert pathname base_addr s.refreshed in
      elim repeated [
        | some _ ↦ pure (record s { core = core })
        | none ↦
            let moved : Refreshing = record { core = core; refreshed = tree } in
            if old != base_addr then hook_then moved pathname base_addr else pure moved
      ]

  -- A new image: an entry and a copy of its path are allocated.
  unfoldable pub create_image : Refreshing → (pathname : Text) (base_addr : ℕ) → Cmd Refreshing
  unfolding hook_then
  create_image s pathname base_addr =
      let (got_entry, c1) = alloc env s.core in
      let (got_path, c2) = alloc env c1 in
      let (repeated, tree) = env.tree.insert pathname base_addr s.refreshed in
      let insert : Cmd Refreshing = elim repeated [
        | some _ ↦ pure (record s { core = c2 })
        | none ↦ hook_then (record { core = c2; refreshed = tree }) pathname base_addr
      ] in
      if not got_entry
      then pure (record s { core = c1 })
      else if not got_path
      then pure (record s { core = c2 })
      else insert

  unfoldable pub place_image : Refreshing → (pathname : Text) (base_addr : ℕ) → Cmd Refreshing
  unfolding update_image create_image
  place_image s pathname base_addr = elim (env.tree.find pathname s.core.map_info) [
    | none ↦ create_image s pathname base_addr
    | some old ↦ update_image s pathname base_addr old
  ]

  -- A region with a path: whether it is wanted, and whether an ELF header stands there.
  unfoldable pub visit : Refreshing → (pathname : Text) (base_addr : ℕ) → Cmd Refreshing
  unfolding place_image check_elf_header wanted
  visit s pathname base_addr =
      let look = do
        (r, core) ← check_elf_header env s.core base_addr
        let s = record s { core = core }
        if r == 0 then place_image s pathname base_addr else pure s
      in if wanted env s.core.hook_info s.core.ignore_info pathname then look else pure s

  unfoldable pub refresh_line : Refreshing → Text → Cmd Refreshing
  unfolding candidate visit
  refresh_line s line = elim (candidate line) [
    | pass ↦ pure s
    | region base_addr pathname ↦ visit s pathname base_addr
    | unset ↦ undef
  ]

  unfoldable pub refresh_lines : List Text → Refreshing → Cmd Refreshing
  unfolding refresh_line
  refresh_lines [] s = pure s
  refresh_lines (line ∷ rest) s = do s ← refresh_line s line; refresh_lines rest s

  -- The items left in `map_info` are freed, and the new tree takes its place.
  unfoldable pub refresh_impl : Core env → Cmd (Core env)
  unfolding refresh_lines lines
  refresh_impl c m = elim (env.kernel.self_maps m) [
    | none ↦ done c m
    | some content ↦
        (do
          s ← refresh_lines (lines content) (record { core = c; refreshed = env.tree.empty })
          pure (record s.core { map_info = s.refreshed }))
          m
  ]
