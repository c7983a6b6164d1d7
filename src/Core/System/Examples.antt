-- ===== src/Core/System/Examples.antt =====
-- The calling thread of cpp/xhook/xh_core.c asks for a refresh.
use art_hook.Base.{ℕ, refl, true}
use art_hook.Machine.{Res}
use art_hook.Elf.Examples.{process}
use art_hook.Core.State.{Core, core_start}
use art_hook.Core.Examples.{env}
use art_hook.Core.Lifecycle.{refresh}
use art_hook.Core.Thread.{over}
use art_hook.Core.System.{free, System, place_after, refreshes, Reach, start, next}
use art_hook.Core.System.Laws.{Single}
use art_hook.Core.System.Steps.{Reach-Single}

abbrev asked : Core env
unfolding refresh
asked =
    (elim (refresh env (core_start env) true process) as (λ _. ℕ × Core env) [
      | Res.done a m ↦ a
      | Res.segv m ↦ (0, core_start env)
      | Res.undefined ↦ (0, core_start env)
      | Res.out_of_fuel ↦ (0, core_start env)
    ]).1

abbrev asking : System env
asking = record { core = asked; place = place_after env (core_start env) asked over; caller = free }

asking-Reach : Reach env asking
unfolding asked refresh
asking-Reach = next start (refreshes true 0 asked process process refl refl refl)

Reach-Single_example : Single env asking
Reach-Single_example = Reach-Single env asking-Reach
