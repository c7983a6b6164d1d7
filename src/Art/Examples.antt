-- ===== src/Art/Examples.antt =====
-- A method in memory, and the code of cpp/art on it.
use art_hook.Base.{ℕ, ◌+◌, ◌≡◌, ◌≢◌, refl, inl, inr, some, arith, [], ◌∷◌, if◌then◌else◌, ◌==◌}
use art_hook.Base.Digits.{digit}
use art_hook.Machine.{Res, load8, store8, load_le, store_le}
use art_hook.Machine.Laws.{returns}
use art_hook.Machine.Stores.{peek}
use art_hook.Art.State.{Statics, ArtMethodKey, ArtMethodSummary, call, invoke}
use art_hook.Art.Modifiers.{acc_native, acc_direct_flags}
use art_hook.Art.Members.{get_offset_by_value}
use art_hook.Art.Members.Laws.{FirstSlot, get_offset_by_value-FirstSlot}
use art_hook.Art.Method.View.{IsLaidOut, Shows, declared}
use art_hook.Art.Clone.{clone_method}
use art_hook.Art.Clone.Flags.{cloned_digit}
use art_hook.Art.Hook.{find_key, hook_method, deal_gc_root}
use art_hook.Art.Hook.Keys.{kept_key}
use art_hook.Art.Hook.Invariant.{Apart, IsPolite, Ready}
use art_hook.Art.Hook.Cloning.{Clear, is_set}
use art_hook.Art.Method.{get_declaring_class}
use art_hook.Art.Hook.Steps.{hooked}
use art_hook.Art.Hook.Laws.{Records, hook_method-flags}
use art_hook.Art.Hook.Digits.{hooked_digit}
use art_hook.Art.Hook.Clones.{clone_method-flags}
use art_hook.Art.Hook.Roots.Flags.{deal_gc_root-flags}
use art_hook.Art.Hook.History.{hook_method-keys, hook_method-class_differs}
use art_hook.Art.Layout.{other_offsets}
use art_hook.Art.Layout.Laws.{other_offsets-IsLaidOut}
use art_hook.Art.Suspend.{enter_no_gc, leave_no_gc}
use art_hook.Art.Suspend.Laws.{Scopes, outside, enter, guarded, guard_of, leave-starts_nothing}
use art_hook.Art.Device.{id, size, process, device, offsets, bridges, before, fields, state, memory}

pub device_IsPolite : IsPolite device id size
device_IsPolite = record {
  dl_open_leaves = λ name m. returns (λ x w. refl);
  dl_sym_leaves = λ lib name m. returns (λ x w. refl);
  malloc_hands = λ n m. returns ((omega arith, inr (omega arith)), λ x w. refl);
  call_hands = λ f args m. returns ((omega arith, inl (omega arith)), λ x w. refl);
  jni_leaves = λ env c m. returns (λ x w. refl);
  tls_leaves = λ m. returns (λ x w. refl);
}

pub before-Ready : Ready 28 size id offsets bridges [] fields before process
unfolding peek
before-Ready = record {
  laid = record {
    flags_place = inl refl;
    dex_place = omega arith;
    extra_place = omega arith;
    jni_place = omega arith;
    quick_place = omega arith;
    size_place = omega arith;
  };
  offsets_known = refl;
  api_known = refl;
  bridge_known = refl;
  bridge_found = refl;
  size_known = omega arith;
  keys_known = refl;
  shown = record {
    class_shown = refl;
    word_shown = refl;
    flags_shown = refl;
    dex_shown = refl;
    extra_shown = refl;
    jni_shown = refl;
    quick_shown = refl;
    flags_fit = omega arith;
  };
}

pub profile-Clear : Clear id size fields.jni_code
profile-Clear = (omega arith, inr (omega arith))

abbrev pub replace : ℕ
replace = 0x7000

hook_run : Res (Unit {0} × Statics)
hook_run = hook_method device id replace before process

hook_returns :
    hook_method device id replace before process ≡ Res.done (tt, state hook_run) (memory hook_run)
unfolding hook_run hook_method load_le store_le load8 store8 call
hook_returns = refl

hook_method-flags_example :
    (v : ℕ) × (peek 4 (id + (state hook_run).method_offset.access_flags_offset) (memory hook_run)
      ≡ some v)
    × (digit 8 v ≡ hooked_digit 28 8 (digit 8 fields.flags))
hook_method-flags_example =
    hook_method-flags 28 size id offsets bridges [] (omega arith) device device_IsPolite fields
      replace before (state hook_run) process (memory hook_run) profile-Clear
      (omega arith, omega arith) (omega arith) before-Ready hook_returns 8 (omega arith)

hook_method-keys_example :
    (key : ArtMethodKey) × Records 28 offsets fields key
    × Apart id size key.original_method
    × (find_key id (state hook_run).hooked_method_map
        ≡ (if id == id then some (kept_key (find_key id []) key) else find_key id []))
hook_method-keys_example =
    hook_method-keys 28 size id offsets bridges [] (omega arith) device device_IsPolite fields
      replace before (state hook_run) process (memory hook_run) profile-Clear
      (omega arith, omega arith) (omega arith) before-Ready hook_returns id

-- What `GetDeclaringClass` returns after the hook.
abbrev class_and_flags : ℕ
class_and_flags = declared offsets (hooked 28 bridges replace fields)

class_read :
    get_declaring_class id (state hook_run) (memory hook_run)
    ≡ Res.done (class_and_flags, state hook_run) (memory hook_run)
unfolding hook_run hook_method get_declaring_class load_le store_le load8 store8 call
class_read = refl

hook_method-class_differs_example :
    (key : ArtMethodKey) × (find_key id (state hook_run).hooked_method_map ≡ some key)
    × (class_and_flags ≢ key.decl_class)
    × (peek 4 id (memory hook_run) ≡ peek 4 id process)
unfolding digit find_key
hook_method-class_differs_example =
    hook_method-class_differs 28 size id offsets bridges [] (omega arith) device device_IsPolite
      fields replace before (state hook_run) process (memory hook_run) profile-Clear
      (omega arith, omega arith) (omega arith) before-Ready hook_returns class_and_flags
      (state hook_run) (memory hook_run) refl refl refl class_read

clone_run : Res (ℕ × Statics)
clone_run = clone_method device id before process

clone_returns :
    clone_method device id before process ≡ Res.done (8192, state clone_run) (memory clone_run)
unfolding clone_run clone_method load_le store_le load8 store8 call
clone_returns = refl

clone_method-flags_example :
    Apart id size 8192
    × Shows 28 (state clone_run).method_offset id fields (memory clone_run)
    × ((v : ℕ) × (peek 4
            (8192 + (state clone_run).method_offset.access_flags_offset)
            (memory clone_run)
          ≡ some v)
        × (digit 1 v
            ≡ cloned_digit 28
                (is_set acc_native fields.flags)
                (is_set acc_direct_flags fields.flags)
                1
                (digit 1 fields.flags)))
clone_method-flags_example =
    clone_method-flags 28 size id offsets bridges [] fields (omega arith) device device_IsPolite
      before (state clone_run) process (memory clone_run) 8192 1 profile-Clear before-Ready
      (omega arith) clone_returns

-- The method was hooked when its class was elsewhere.
abbrev pub moved_key : ArtMethodKey
moved_key = record {
  decl_class = 0x9999;
  access_flags = 1;
  dex_code_item_offset = 0x2222;
  quick_code = 0x4444;
  interpreter_code = 0;
  jni_code = 12288;
  original_method = 8192;
}

abbrev pub hooked_before : Statics
hooked_before = record before { hooked_method_map = (id, moved_key) ∷ [] }

pub hooked_before-Ready :
    Ready 28 size id offsets bridges ((id, moved_key) ∷ []) fields hooked_before process
hooked_before-Ready = record {
  laid = before-Ready.laid;
  offsets_known = refl;
  api_known = refl;
  bridge_known = refl;
  bridge_found = refl;
  size_known = omega arith;
  keys_known = refl;
  shown = before-Ready.shown;
}

deal_run : Res (Unit {0} × Statics)
deal_run = deal_gc_root device id hooked_before process

deal_returns :
    deal_gc_root device id hooked_before process ≡ Res.done (tt, state deal_run) (memory deal_run)
unfolding deal_run deal_gc_root find_key load_le store_le load8 store8 call
deal_returns = refl

deal_gc_root-flags_example :
    (key : ArtMethodKey) × (find_key id (state deal_run).hooked_method_map ≡ some key)
    × (v : ℕ) × (peek 4
          (key.original_method + (state deal_run).method_offset.access_flags_offset)
          (memory deal_run)
        ≡ some v)
    × (digit 8 v
        ≡ cloned_digit 28
            (is_set acc_native fields.flags)
            (is_set acc_direct_flags fields.flags)
            8
            (digit 8 fields.flags))
unfolding find_key
deal_gc_root-flags_example =
    deal_gc_root-flags 28 size id offsets bridges fields (omega arith) device device_IsPolite
      ((id, moved_key) ∷ []) moved_key hooked_before (state deal_run) process (memory deal_run) 8
      profile-Clear refl hooked_before-Ready (λ same. omega (arith, same)) (omega arith)
      deal_returns

abbrev summary : ArtMethodSummary
summary = record {
  method_size = 40;
  access_flags_offset = 4;
  entrypoint_filed_size = 8;
  jni_code_offset = 24;
}

other_offsets-IsLaidOut_example : IsLaidOut 28 40 (other_offsets 28 bridges summary offsets)
other_offsets-IsLaidOut_example =
    other_offsets-IsLaidOut 28 bridges summary offsets (inl refl) (omega arith) (omega arith)
      (omega arith) refl (inl (omega arith))

get_offset_by_value-FirstSlot_example :
    (process ≡ process) × FirstSlot 4 id 0x2222 (omega arith) process 8
unfolding get_offset_by_value load_le load8
get_offset_by_value-FirstSlot_example =
    get_offset_by_value-FirstSlot 4 id 0x2222 (omega arith) process 8 process refl

-- `Load` has found the methods.
abbrev loaded : Statics
loaded = record before {
  daemons = record {
    java_lang_daemons = 1;
    java_lang_daemons_start = 2;
    java_lang_daemons_stop = 3;
    no_gc_daemons_guard = 0;
  };
}

enter_run : Res (Unit {0} × Statics)
enter_run = enter_no_gc device 5 loaded process

one_scope : Scopes device 5 loaded 1 (state enter_run) (memory enter_run)
unfolding enter_run enter_no_gc invoke
one_scope = enter (outside process) (omega arith) refl

leave-starts_nothing_example :
    leave_no_gc device 5 (state enter_run) (memory enter_run)
    ≡ Res.done
        (
          tt,
          record (state enter_run) {
            daemons = guarded device 5 loaded.daemons (guard_of device 5 0);
          },
        )
        (memory enter_run)
leave-starts_nothing_example =
    leave-starts_nothing device 5 loaded (omega arith) (omega arith) refl 0 (state enter_run)
      (memory enter_run) one_scope
