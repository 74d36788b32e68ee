-- ===== src/Listener/Sequencer.antt =====
-- src/alarm_listener.rs, `RtaSequencer`: the sequence counters of one alarm priority.
pub mod Link
pub mod Once
use profinet_rs.Prelude.{ℕ, ◌+◌, ◌%◌, bit_and, not, ◌==◌, if◌then◌else◌}
use profinet_rs.Listener.Header.{
  RtaHeader, kind, version, version_1, rta_type_data, rta_type_nack, rta_type_ack, rta_type_err,
  add_flags_tack,
}

abbrev pub seq_num_init : ℕ
seq_num_init = 0xFFFF

abbrev pub seq_num_init_o : ℕ
seq_num_init_o = 0xFFFE

abbrev pub seq_num_mask : ℕ
seq_num_mask = 0x7FFF

pub data RtaAction : Type 0 where
  ignore our_data_acked device_nack device_error re_ack send_nack accept : RtaAction

pub record RtaSequencer : Type 0 where
  pub send_seq_num : ℕ
  pub send_seq_num_o : ℕ
  pub exp_seq_num : ℕ
  pub exp_seq_num_o : ℕ

abbrev pub new : RtaSequencer
new = record {
  send_seq_num = seq_num_init;
  send_seq_num_o = seq_num_init_o;
  exp_seq_num = seq_num_init;
  exp_seq_num_o = seq_num_init_o;
}

abbrev pub ack_seq_pair : RtaSequencer → ℕ × ℕ
ack_seq_pair q = (q.send_seq_num_o, q.exp_seq_num_o)

abbrev pub data_seq_pair : RtaSequencer → ℕ × ℕ
data_seq_pair q = (q.send_seq_num, q.exp_seq_num_o)

-- `wrapping_add(1) & SEQ_NUM_MASK`
unfoldable pub next_seq : ℕ → ℕ
next_seq n = bit_and ((n + 1) % 65536) seq_num_mask

unfoldable pub advance_send : RtaSequencer → RtaSequencer
unfolding next_seq
advance_send q = record q {
  send_seq_num_o = q.send_seq_num;
  send_seq_num = next_seq q.send_seq_num;
}

-- A DATA PDU that asks for an acknowledgment.
unfoldable pub on_data : RtaHeader → RtaSequencer → RtaAction × RtaSequencer
unfolding advance_send
on_data h q =
    if h.send_seq_num == q.exp_seq_num_o
    then (re_ack, q)
    else (if not (h.send_seq_num == q.exp_seq_num)
        then (send_nack, q)
        else (let moved = record q {
          exp_seq_num_o = q.exp_seq_num;
          exp_seq_num = next_seq q.exp_seq_num;
        } in
            (accept, if h.ack_seq_num == moved.send_seq_num then advance_send moved else moved)))

unfoldable pub on_pdu : RtaHeader → RtaSequencer → RtaAction × RtaSequencer
unfolding on_data
on_pdu h q =
    if not (version h == version_1)
    then (ignore, q)
    else (if kind h == rta_type_ack
        then (if h.ack_seq_num == q.send_seq_num
            then (our_data_acked, advance_send q)
            else (ignore, q))
        else (if kind h == rta_type_nack
            then (device_nack, q)
            else (if kind h == rta_type_err
                then (device_error, q)
                else (if kind h == rta_type_data
                    then (if bit_and h.add_flags add_flags_tack == 0
                        then (ignore, q)
                        else on_data h q)
                    else (ignore, q)))))
