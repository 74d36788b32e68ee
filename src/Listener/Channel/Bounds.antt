-- ===== src/Listener/Channel/Bounds.antt =====
-- src/alarm_listener.rs, `AlarmChannel::service`: how much it sends without an acknowledgment.
use profinet_rs.Prelude.{ℕ, ◌+◌, ◌*◌, Option, none, some, length}
use profinet_rs.Listener.Frame.{AlarmEndpoint}
use profinet_rs.Listener.Channel.{Pending, AlarmChannel}

abbrev pub pending_left : Option Pending → ℕ
pending_left none = 0
pending_left (some p) = p.retries_left

-- How often the channel may still send: what is left of the AlarmAck that waits, and each queued one with
-- all of its retries.
abbrev pub budget : AlarmEndpoint → AlarmChannel → ℕ
budget endpoint c = pending_left c.pending + length c.queued * (1 + endpoint.rta_retries)
