-- ===== src/Listener/Channel.antt =====
-- src/alarm_listener.rs, `AlarmChannel`: the AlarmAcks of one priority, one at a time.
pub mod Schedule
pub mod Bounds
pub mod Keeps
use profinet_rs.Prelude.{
  ℕ, ◌+◌, ◌-◌, Bool, ltb, leb, if◌then◌else◌, Option, none, some, List, [], ◌∷◌, ◌++◌, Bytes,
}
use profinet_rs.Listener.Frame.{AlarmEndpoint, build_layer2_ack_frame}
use profinet_rs.Listener.Sequencer
use profinet_rs.Listener.Sequencer.{RtaSequencer, data_seq_pair}

-- An AlarmAck that waits for its transport ACK: the frame, when to send it again, and how often.
pub record Pending : Type 0 where
  pub frame : Bytes
  pub due : ℕ
  pub retries_left : ℕ

pub record AlarmChannel : Type 0 where
  pub seq : RtaSequencer
  pub pending : Option Pending
  pub queued : List Bytes
  pub high_priority : Bool

abbrev pub new : Bool → AlarmChannel
new high_priority = record {
  seq = Sequencer.new;
  pending = none;
  queued = [];
  high_priority = high_priority;
}

-- The frames that a call sends, and the channel that it leaves.
abbrev pub Served : Type 0
Served = List Bytes × AlarmChannel

-- The first half of `service`: what becomes of the AlarmAck that waits.
unfoldable pub retransmit : ℕ → ℕ → Option Pending → AlarmChannel → Served
retransmit retransmit_after now none c = ([], c)
retransmit retransmit_after now (some p) c =
    if leb p.due now
    then (if ltb 0 p.retries_left
        then (
          p.frame ∷ [],
          record c {
            pending = some (record {
              frame = p.frame;
              due = now + retransmit_after;
              retries_left = p.retries_left - 1;
            });
          },
        )
        else ([], record c { pending = none }))
    else ([], c)

-- The AlarmAck frame for a payload, with the sequence numbers of the channel.
abbrev pub ack_frame : AlarmEndpoint → Bytes → AlarmChannel → Bytes → Bytes
ack_frame endpoint controller_mac c ack_data =
    build_layer2_ack_frame endpoint controller_mac (data_seq_pair c.seq).0 (data_seq_pair c.seq).1
      ack_data c.high_priority

-- The second half: the window is free, and the next payload goes out.
unfoldable pub send_queued : AlarmEndpoint → Bytes → ℕ → ℕ → List Bytes → AlarmChannel → Served
send_queued endpoint controller_mac retransmit_after now [] c = ([], c)
send_queued endpoint controller_mac retransmit_after now (ack_data ∷ queued) c =
    let frame = ack_frame endpoint controller_mac c ack_data in
    (
      frame ∷ [],
      record c {
        queued = queued;
        pending = some (record {
          frame = frame;
          due = now + retransmit_after;
          retries_left = endpoint.rta_retries;
        });
      },
    )

-- The second half runs where nothing waits.
unfoldable pub send_next : AlarmEndpoint → Bytes → ℕ → ℕ → Option Pending → AlarmChannel → Served
unfolding send_queued
send_next endpoint controller_mac retransmit_after now (some p) c = ([], c)
send_next endpoint controller_mac retransmit_after now none c =
    send_queued endpoint controller_mac retransmit_after now c.queued c

unfoldable pub service : AlarmEndpoint → Bytes → ℕ → ℕ → AlarmChannel → Served
unfolding retransmit send_next
service endpoint controller_mac retransmit_after now c =
    let (again, c') = retransmit retransmit_after now c.pending c in
    let (fresh, c'') = send_next endpoint controller_mac retransmit_after now c'.pending c' in
    (again ++ fresh, c'')

-- `next_due`
unfoldable pub next_due : AlarmChannel → Option ℕ
next_due c = elim c.pending [ none ↦ none | some p ↦ some p.due ]
