-- ===== src/Core/Timeouts.antt =====
-- primary/src/core.rs, `tc_makers`: the invariant of the timeout makers under `handle_timeout`.
use auto_pilot.Config.Committee.{Committee}
use auto_pilot.Core.State.{Core}
use auto_pilot.Prelude.{nat_eq, pair_eq}
