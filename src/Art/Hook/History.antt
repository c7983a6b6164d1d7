-- ===== src/Art/Hook/History.antt =====
-- What later calls find after `ArtMethod::Hook`: the map of hooked methods, and the class.
use art_hook.Base.{
  ℕ, ◌+◌, ◌*◌, ◌^◌, ◌≤◌, ◌<◌, ◌≡◌, ◌≢◌, refl, ap, ◌∙◌, ◌==◌, if◌then◌else◌, arith, some, none, sym,
  true,
}
use art_hook.Base.Digits.{digit}
use art_hook.Machine.{Mem, Res}
use art_hook.Machine.Laws.{at_return}
use art_hook.Machine.Stores.{peek}
use art_hook.Art.State.{Runtime, Statics, ArtMethodKey, ArtMethodOffsets, ArtBridgeList}
use art_hook.Art.Method.{get_declaring_class}
use art_hook.Art.Method.View.{Fields, declared}
use art_hook.Art.Method.Updates.{get_declaring_class-Shows}
use art_hook.Art.Hook.{Keys, find_key, insert_key, hook_method}
use art_hook.Art.Hook.Keys.{kept_key, find_key-insert_key}
use art_hook.Art.Hook.Invariant.{IsPolite, Apart, Ready}
use art_hook.Art.Hook.Cloning.{Clear}
use art_hook.Art.Hook.Steps.{BridgesFit, hooked}
use art_hook.Art.Hook.Laws.{Records, hook_method-Hooked}
use art_hook.Art.Hook.Digits.{hooked_flags-digit}

-- The flags are the upper half of what is read.
flags_read :
    (o : ArtMethodOffsets) (f : Fields)
    → o.access_flags_offset ≡ 4
    → declared o f ≡ f.class + 256 ^ 4 * f.flags
flags_read o f at = rw at refl

module _ (api size id : ℕ) (o : ArtMethodOffsets) (bridge : ArtBridgeList) (keys : Keys)
    (ends : id + size ≤ 2 ^ 64) (k : Runtime) (polite : IsPolite k id size) (f : Fields)
    (replace : ℕ) (s s' : Statics) (m m' : Mem) (clear : Clear id size f.jni_code)
    (bridges : BridgesFit bridge) (fits : replace < 2 ^ 64)
    (ready : Ready api size id o bridge keys f s m)
    (run : hook_method k id replace s m ≡ Res.done (tt, s') m') where
  -- After a hook that returns the method has a key: the one that it had before, if it was hooked
  -- already, and otherwise one with the members as the hook found them, the entry point for the
  -- interpreter among them before 7.0, and with a clone apart from the method. The key of any other method is as it was. It is supposed that the members are laid
  -- out within the method, that the bridges have been looked up, that the profiling info is apart
  -- from the method, and that what the hook calls does not write into the method.
  pub hook_method-keys :
      (i : ℕ)
      → (key : ArtMethodKey) × Records api o f key
        × Apart id size key.original_method
        × (find_key i s'.hooked_method_map
            ≡ (if i == id then some (kept_key (find_key id keys) key) else find_key i keys))
  hook_method-keys i =
      let (key, records, apart, after) =
        hook_method-Hooked api size id o bridge keys ends k polite f replace s s' m m' clear bridges
          fits ready run in
      (key, records, apart, ap (find_key i) after.keys_known ∙ find_key-insert_key i id key keys)

  -- Where the flags stand 4 bytes from the start of the method, a hook of a method that had no key
  -- and was not native makes `GetDeclaringClass`, which reads 8 bytes there, return another value
  -- than the one in the key that the hook has recorded, although the reference to the class, of 4
  -- bytes, has not changed. It is supposed that the members are laid out within the method, that the
  -- bridges have been looked up, that the profiling info is apart from the method, and that what the
  -- hook calls does not write into the method.
  pub hook_method-class_differs :
      (v : ℕ) (s'' : Statics) (m'' : Mem)
      → o.access_flags_offset ≡ 4
      → digit 8 f.flags ≡ 0
      → find_key id keys ≡ none
      → get_declaring_class id s' m' ≡ Res.done (v, s'') m''
      → (key : ArtMethodKey) × (find_key id s'.hooked_method_map ≡ some key)
        × (v ≢ key.decl_class)
        × (peek 4 id m' ≡ peek 4 id m)
  hook_method-class_differs v s'' m'' at not_native absent read =
      let (key, records, apart, after) =
        hook_method-Hooked api size id o bridge keys ends k polite f replace s s' m m' clear bridges
          fits ready run in
      let f' = hooked api bridge replace f in
      let flags_differ : f'.flags ≢ f.flags =
        (λ e. ground (arith, hooked_flags-digit api f.flags 8 (omega arith), ap (digit 8) e)) in
      let now : v ≡ declared o f' =
        (at_return (
          rw read at
            (get_declaring_class-Shows api size id ends f' s' m' after.laid after.shown))).0
        ∙ ap (λ x. declared x f') after.offsets_known in
      let itself : (id == id) ≡ true = ground arith in
      let there : find_key id (insert_key id key keys) ≡ some key =
        find_key-insert_key id id key keys ∙ rw (itself, absent) refl in
      (
        key,
        ap (find_key id) after.keys_known ∙ there,
        λ same.
            flags_differ
              (omega (arith, flags_read o f' at, flags_read o f at, now, same, records.class_kept)),
        after.shown.class_shown ∙ sym ready.shown.class_shown,
      )
