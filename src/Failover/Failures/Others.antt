-- ===== src/Failover/Failures/Others.antt =====
-- What a failure leaves alone of the other accounts (proxy/account_failover.go).
use kiro_go_plus.Base.{bytes_eq, nat_eq}
use kiro_go_plus.Base.Text.{Text}
use kiro_go_plus.Pool.Reload.Frames.{Spared}
use kiro_go_plus.Failover.Failures.{Dispatch}

-- What is kept of an account j is spared from one state to the next.
abbrev pub Spares : Text → Dispatch → Dispatch → Type 0
Spares j d e = Spared j d.pool d.stored e.pool e.stored
