-- ===== src/Runtime/NoLog.antt =====
-- library/nullinstrumentation.c: every function is empty.
use dinamite.Shared.{Outcome, value}
use dinamite.Runtime.Calls.{Call}

unfoldable pub null_call {ℓ} : {State : Type ℓ} → Call → State → Outcome State
null_call c s = value s
