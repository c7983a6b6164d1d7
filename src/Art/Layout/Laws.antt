-- ===== src/Art/Layout/Laws.antt =====
-- The offsets that `CalculateOtherOffset` works out, and how often the layout is looked for.
use art_hook.Base.{
  ℕ, ◌+◌, ◌^◌, ◌≤◌, ◌<◌, ◌≡◌, ◌≢◌, refl, ◌⊎◌, Bool, not, ◌&&◌, ◌||◌, arith, ltb, lt→ltb, List, [],
  ◌∷◌,
}
use art_hook.Machine.{Mem, Res, null}
use art_hook.Art.State.{
  Runtime, Statics, ArtMethodSummary, ArtMethodOffsets, ArtBridgeList, Act, ret, ◌>>◌,
}
use art_hook.Art.Runs.{either, taken}
use art_hook.Art.Modifiers.{android_n}
use art_hook.Art.Layout.{other_offsets, art_method, set_art_prepared}
use art_hook.Art.Method.View.{IsLaidOut}

-- The members that are worked out do not overlap, and lie within the method: the reference to the
-- class, the flags, the dex code, the hotness (before 7.0: the entry point for the interpreter) and
-- the entry points for JNI and for compiled code stand in this order. It is supposed that the flags
-- are 4 bytes from the start or at least 8, that the entry point for JNI is at least 16 bytes behind
-- them with room for two pointers in the method, that an entry point has 8 bytes, and that before
-- 7.0 the bridge from the interpreter was found.
pub other_offsets-IsLaidOut :
    (api : ℕ) (bridge : ArtBridgeList) (summary : ArtMethodSummary) (old : ArtMethodOffsets)
    → (summary.access_flags_offset ≡ 4) ⊎ (8 ≤ summary.access_flags_offset)
    → summary.access_flags_offset + 16 ≤ summary.jni_code_offset
    → summary.jni_code_offset + 16 ≤ summary.method_size
    → summary.method_size < 2 ^ 64
    → summary.entrypoint_filed_size ≡ 8
    → (android_n ≤ api) ⊎ (bridge.interpreter_to_compiled_code ≢ null)
    → IsLaidOut api summary.method_size (other_offsets api bridge summary old)
unfolding other_offsets
other_offsets-IsLaidOut api bridge summary old start apart room small eight found = record {
  flags_place = start;
  dex_place = omega arith;
  extra_place = ground arith;
  jni_place = ground arith;
  quick_place = omega arith;
  size_place = omega arith;
}

-- The last of the notices, or what held before them.
pub last_notice : List Bool → Bool → Bool
last_notice [] b = b
last_notice (b ∷ bs) old = last_notice bs b

module _ (k : Runtime) where
  -- Any number of notices that the runtime is ready or not.
  pub prepare_all : List Bool → Act (Unit {0})
  prepare_all [] = ret tt
  prepare_all (b ∷ bs) = set_art_prepared k b >> prepare_all bs

  once :
      (b : Bool) (s : Statics) (m : Mem)
      → 0 < s.api_level
      → set_art_prepared k b s m ≡ Res.done (tt, record s { art_prepared = b }) m
  unfolding set_art_prepared art_method
  once b s m known =
      either (not s.art_prepared && b) _ _ (record s { art_prepared = b }) m
        (taken (ltb 0 s.api_level || not b) _ _ _ m (ground (arith, lt→ltb 0 s.api_level known)))
        refl

  -- Once the API level is known, any sequence of notices only changes the notice itself, to the last
  -- one: nothing is looked up again, nothing is called, and the offsets and memory stay as they are.
  pub prepare_all-keeps :
      (bs : List Bool) (s : Statics) (m : Mem)
      → 0 < s.api_level
      → prepare_all bs s m
        ≡ Res.done (tt, record s { art_prepared = last_notice bs s.art_prepared }) m
  unfolding prepare_all last_notice set_art_prepared art_method
  prepare_all-keeps [] s m known = refl
  prepare_all-keeps (b ∷ bs) s m known =
      rw (once b s m known) (prepare_all-keeps bs (record s { art_prepared = b }) m known)
