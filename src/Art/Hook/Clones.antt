-- ===== src/Art/Hook/Clones.antt =====
-- The clone that `ArtMethod::Clone` hands out.
use art_hook.Base.{ℕ, ◌+◌, ◌^◌, ◌≤◌, ◌<◌, ◌≡◌, some}
use art_hook.Base.Digits.{digit}
use art_hook.Machine.{Mem, Res}
use art_hook.Machine.Laws.{at_return}
use art_hook.Machine.Stores.{peek}
use art_hook.Art.State.{ArtMethodOffsets, Runtime, Statics, ArtBridgeList}
use art_hook.Art.Modifiers.{acc_native, acc_direct_flags}
use art_hook.Art.Method.View.{Fields, Shows}
use art_hook.Art.Clone.{clone_method}
use art_hook.Art.Clone.Flags.{cloned_digit, clone_flags-digit}
use art_hook.Art.Hook.{Keys}
use art_hook.Art.Hook.Invariant.{Apart, IsPolite, Ready}
use art_hook.Art.Hook.Cloning.{Clear, is_set, clone_method-Flagged}

module _ (api size id : ℕ) (o : ArtMethodOffsets) (bridge : ArtBridgeList) (keys : Keys)
    (f : Fields) (ends : id + size ≤ 2 ^ 64) (k : Runtime) (polite : IsPolite k id size) where
  -- A clone that is handed out is apart from the method, and the method has the members that it
  -- had. The flags of the clone are, digit by digit, those of the method with these changes: no
  -- lock; a method that is not static, private or a constructor is private and neither public nor
  -- protected; one that is not native skips the access checks; and the flags that keep the compiler
  -- away are set, one before 8.1 and two from then on. It is supposed that the members are laid out
  -- within the method, that the bridges have been looked up, that the profiling info is apart from
  -- the method, and that what the code calls does not write into the method.
  pub clone_method-flags :
      (s s' : Statics) (m m' : Mem) (clone i : ℕ)
      → Clear id size f.jni_code
      → Ready api size id o bridge keys f s m
      → i < 32
      → clone_method k id s m ≡ Res.done (clone, s') m'
      → Apart id size clone
        × Shows api s'.method_offset id f m'
        × ((v : ℕ) × (peek 4 (clone + s'.method_offset.access_flags_offset) m' ≡ some v)
            × (digit i v
                ≡ cloned_digit api
                    (is_set acc_native f.flags)
                    (is_set acc_direct_flags f.flags)
                    i
                    (digit i f.flags)))
  clone_method-flags s s' m m' clone i clear ready h run =
      let out = at_return (
        rw run at
          (clone_method-Flagged api size id o bridge keys f ends k polite s m clear ready)) in
      (out.0, out.2.shown, (_, out.1, clone_flags-digit api f.flags i _ _ h))
