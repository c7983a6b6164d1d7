-- ===== src/Art/State.antt =====
-- The static variables of cpp/art, and what its code calls in the process around it.
use Prim.Native.String.{String}
use art_hook.Base.{ℕ, Bool, false, List, [], ◌∷◌, Text, ◌==◌, if◌then◌else◌}
use art_hook.Machine.{Res, Cmd, and_then, null}

-- cpp/art/ArtMethod.h. An address of the process is a number; so is a `jmethodID`, which is the
-- address of an ArtMethod of the runtime.
pub record ArtMethodSummary : Type 0 where
  pub method_size : ℕ
  pub access_flags_offset : ℕ
  pub entrypoint_filed_size : ℕ
  pub jni_code_offset : ℕ

pub record ArtMethodOffsets : Type 0 where
  pub method_size : ℕ
  pub jni_code_offset : ℕ
  pub quick_code_offset : ℕ
  pub access_flags_offset : ℕ
  pub dex_code_item_offset_offset : ℕ
  pub dex_method_index_offset : ℕ
  pub method_index_offset : ℕ
  pub interpreter_code_offset : ℕ
  pub hotness_count_offset : ℕ

pub record ArtMethodKey : Type 0 where
  pub decl_class : ℕ
  pub access_flags : ℕ
  pub dex_code_item_offset : ℕ
  pub quick_code : ℕ
  pub interpreter_code : ℕ
  pub jni_code : ℕ
  pub original_method : ℕ

-- cpp/art/ARTSymbol.h. The members are addresses of functions, null where libart.so has none.
pub record ArtSymbolList : Type 0 where
  pub suspend_vm : ℕ
  pub resume_vm : ℕ
  pub force_process_profiles : ℕ
  pub method_copy_from : ℕ
  pub object_clone : ℕ
  pub object_clone_with_class : ℕ
  pub object_clone_with_size : ℕ

pub record ArtBridgeList : Type 0 where
  pub interpreter_to_compiled_code : ℕ
  pub quick_to_jni_bridge : ℕ
  pub quick_to_interpreter : ℕ

pub record RuntimeObject : Type 0 where
  pub vm : ℕ
  pub runtime : ℕ
  pub heap : ℕ
  pub thread_list : ℕ
  pub class_linker : ℕ
  pub intern_table : ℕ

-- The static members of ScopedNoGCDaemons, and `kNoGCDaemonsGuard` as the bits of a `long`.
pub record Daemons : Type 0 where
  pub java_lang_daemons : ℕ
  pub java_lang_daemons_start : ℕ
  pub java_lang_daemons_stop : ℕ
  pub no_gc_daemons_guard : ℕ

-- The functions of the JNI interface that the code calls, with their arguments.
pub data JniCall : Type 0 where
  find_class : String → JniCall
  get_method_id : ℕ → String → String → JniCall
  get_static_method_id : ℕ → String → String → JniCall
  get_field_id : ℕ → String → String → JniCall
  get_long_field : ℕ → ℕ → JniCall
  get_java_vm : JniCall
  get_object_class : ℕ → JniCall
  new_object_array : ℕ → ℕ → ℕ → JniCall
  new_global_ref : ℕ → JniCall
  to_reflected_method : ℕ → ℕ → Bool → JniCall
  call_nonvirtual_object_method : (object class method thiz params : ℕ) → JniCall
  call_static_object_method : ℕ → ℕ → JniCall
  call_static_void_method : ℕ → ℕ → JniCall
  register_natives : ℕ → JniCall
  exception_check : JniCall
  exception_describe : JniCall
  exception_clear : JniCall

-- A call that has left the code: of a function of the runtime, or of the JNI interface.
pub data Event : Type 0 where
  called : (function : ℕ) (arguments : List ℕ) → Event
  jni : JniCall → Event

-- What the process offers. `dl_open` and `dl_sym` are those of cpp/elf, `call` runs the function
-- at an address, `tls_self` is the slot of the thread, and `sdk` is ro.build.version.sdk.
pub record Runtime : Type 0 where
  pub dl_open : String → Cmd ℕ
  pub dl_sym : ℕ → String → Cmd ℕ
  pub malloc : ℕ → Cmd ℕ
  pub call : ℕ → List ℕ → Cmd ℕ
  pub jni_call : ℕ → JniCall → Cmd ℕ
  pub tls_self : Cmd ℕ
  pub sdk : Text

-- A key of `hooked_method_map` is reached through the map only, so it is kept in it. `events` are
-- the calls made so far, the last one first.
pub record Statics : Type 0 where
  pub api_level : ℕ
  pub art_prepared : Bool
  pub method_offset : ArtMethodOffsets
  pub hooked_method_map : List (ℕ × ArtMethodKey)
  pub symbol_list : ArtSymbolList
  pub symbol_inited : Bool
  pub bridge_list : ArtBridgeList
  pub bridge_inited : Bool
  pub runtime_obj : RuntimeObject
  pub get_jnienv_symbol : ℕ
  pub daemons : Daemons
  pub events : List Event

abbrev pub no_offsets : ArtMethodOffsets
no_offsets = record {
  method_size = 0;
  jni_code_offset = 0;
  quick_code_offset = 0;
  access_flags_offset = 0;
  dex_code_item_offset_offset = 0;
  dex_method_index_offset = 0;
  method_index_offset = 0;
  interpreter_code_offset = 0;
  hotness_count_offset = 0;
}

abbrev pub art_start : Statics
art_start = record {
  api_level = 0;
  art_prepared = false;
  method_offset = no_offsets;
  hooked_method_map = [];
  symbol_list = record {
    suspend_vm = null;
    resume_vm = null;
    force_process_profiles = null;
    method_copy_from = null;
    object_clone = null;
    object_clone_with_class = null;
    object_clone_with_size = null;
  };
  symbol_inited = false;
  bridge_list = record {
    interpreter_to_compiled_code = null;
    quick_to_jni_bridge = null;
    quick_to_interpreter = null;
  };
  bridge_inited = false;
  runtime_obj = record {
    vm = null;
    runtime = null;
    heap = null;
    thread_list = null;
    class_linker = null;
    intern_table = null;
  };
  get_jnienv_symbol = null;
  daemons = record {
    java_lang_daemons = null;
    java_lang_daemons_start = null;
    java_lang_daemons_stop = null;
    no_gc_daemons_guard = 0;
  };
  events = [];
}

-- Code that works on the static variables and on memory.
abbrev pub Act : Type 0 → Type 0
Act A = Statics → Cmd (A × Statics)

abbrev pub ret : {A : Type 0} → A → Act A
ret a s m = Res.done (a, s) m

module _ {A : Type 0} where
  abbrev pub lift : Cmd A → Act A
  lift c s m = and_then (c m) (λ a. Res.done (a, s))

  abbrev pub gets : (Statics → A) → Act A
  gets f s m = Res.done (f s, s) m

module _ {A B : Type 0} where
  infixl 5 ◌>>=◌ ◌>>◌
  abbrev pub ◌>>=◌ : Act A → (A → Act B) → Act B
  ◌>>=◌ c k s m = and_then (c s m) (λ p. k p.0 p.1)

  abbrev pub ◌>>◌ : Act A → Act B → Act B
  ◌>>◌ c d s m = and_then (c s m) (λ p. d p.1)

abbrev pub modify : (Statics → Statics) → Act (Unit {0})
modify f s m = Res.done (tt, f s) m

-- A run of code that is not here leaves an event.
module _ (k : Runtime) where
  unfoldable pub call : ℕ → List ℕ → Act ℕ
  call f args s m =
      and_then (k.call f args m)
        (λ r. Res.done (r, record s { events = Event.called f args ∷ s.events }))

  -- A null `env` has no table of functions.
  unfoldable pub invoke : ℕ → JniCall → Act ℕ
  invoke env c s = if env == null then Res.segv else (λ m.
      and_then (k.jni_call env c m)
        (λ r. Res.done (r, record s { events = Event.jni c ∷ s.events })))
