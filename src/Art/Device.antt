-- ===== src/Art/Device.antt =====
-- A method of cpp/art in memory, and a runtime whose calls do nothing, for the concrete runs.
use art_hook.Base.{
  ℕ, zero, suc, ◌+◌, ◌-◌, ◌/◌, ◌%◌, true, Option, none, some, [], ◌∷◌, ◌++◌, ltb, Text,
  if◌then◌else◌,
}
use art_hook.Machine.{Mem, Res, pure}
use art_hook.Art.State.{Runtime, Statics, ArtMethodOffsets, ArtBridgeList, art_start}
use art_hook.Art.Method.View.{Fields}

-- `n` bytes of a little-endian integer.
abbrev pub le : ℕ → ℕ → Text
le zero v = []
le (suc n) v = v % 256 ∷ le n (v / 256)

abbrev pub nth : Text → ℕ → Option ℕ
nth [] i = none
nth (c ∷ s) zero = some c
nth (c ∷ s) (suc i) = nth s i

abbrev pub at_base : ℕ → Text → (ℕ → Option ℕ) → ℕ → Option ℕ
at_base base bytes rest a =
    if ltb a base then rest a else (if ltb a (base + 40) then nth bytes (a - base) else rest a)

abbrev pub id : ℕ
id = 4096

abbrev pub size : ℕ
size = 40

-- A public method of Android 9: class, flags, dex code, hotness at 18, JNI and compiled code.
abbrev pub method_bytes : Text
method_bytes =
    le 4 0x1111
    ++ le 4 1
    ++ le 4 0x2222
    ++ le 4 0
    ++ le 2 0
    ++ le 2 9
    ++ le 4 0
    ++ le 8 12288
    ++ le 8 0x3333

abbrev pub process : Mem
process = record {
  cell = at_base id method_bytes (at_base 8192 (le 40 0) (at_base 12288 (le 40 0) (λ a. none)));
  prot = λ p. 3;
}

-- Its calls do nothing.
abbrev pub device : Runtime
device = record {
  dl_open = λ name. pure 7;
  dl_sym = λ lib name. pure 0;
  malloc = λ n. pure 8192;
  call = λ f args. pure 0;
  jni_call = λ env c. pure 0;
  tls_self = pure 0;
  sdk = b'2' ∷ b'8' ∷ [];
}

abbrev pub offsets : ArtMethodOffsets
offsets = record {
  method_size = 40;
  jni_code_offset = 24;
  quick_code_offset = 32;
  access_flags_offset = 4;
  dex_code_item_offset_offset = 8;
  dex_method_index_offset = 12;
  method_index_offset = 16;
  interpreter_code_offset = 0;
  hotness_count_offset = 18;
}

abbrev pub bridges : ArtBridgeList
bridges = record {
  interpreter_to_compiled_code = 0;
  quick_to_jni_bridge = 0x5000;
  quick_to_interpreter = 0x6000;
}

abbrev pub before : Statics
before = record art_start {
  api_level = 28;
  art_prepared = true;
  method_offset = offsets;
  bridge_list = bridges;
  bridge_inited = true;
}

abbrev pub fields : Fields
fields = record {
  class = 0x1111;
  word = 0;
  flags = 1;
  dex_code = 0x2222;
  extra = 9;
  jni_code = 12288;
  quick_code = 0x3333;
}

-- The end of a run that returns.
module _ {A : Type 0} where
  abbrev pub state : Res (A × Statics) → Statics
  state (Res.done (a, s) m) = s
  state (Res.segv m) = art_start
  state Res.undefined = art_start
  state Res.out_of_fuel = art_start

  abbrev pub memory : Res (A × Statics) → Mem
  memory (Res.done p m) = m
  memory (Res.segv m) = process
  memory Res.undefined = process
  memory Res.out_of_fuel = process
