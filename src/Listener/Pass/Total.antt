-- ===== src/Listener/Pass/Total.antt =====
-- src/alarm_listener.rs: a pass of the receive loop comes back, and what it may give to the callbacks.
use profinet_rs.Prelude.{
  ℕ, ◌≡◌, ◌⊎◌, inl, inr, refl, ap, ◌∙◌, Bool, not, ◌==◌, ==_iff, Yields-bind, Yields-map, if-Yields,
  Option, none, some, List, [], ◌++◌, Bytes, to_option, Yields, Exec, ok, err, panic, stuck,
}
use mathlib.Core.Path.{subst}
use profinet_rs.Listener.Header
use profinet_rs.Listener.Header.{RtaHeader, rta_size, rta_type_data, version_1, kind, version}
use profinet_rs.Listener.Frame.{AlarmEndpoint, check_layer2_frame}
use profinet_rs.Listener.Sequencer.{on_pdu}
use profinet_rs.Listener.Channel.Keeps.{service-Keeps}
use profinet_rs.Listener.Pass.{
  Incoming, frame_in, timed_out, failed, Channels, channel_of, with_channel, Passed,
  retransmit_after, act, handle_pdu, handle_header, handle_payload, receive_pass, serve_both,
  listen_pass,
}
use profinet_rs.Listener.Frame.Total.{
  Back, IsAlarmFrame, Checked, check_layer2_frame-Checked, header-Back,
}
use profinet_rs.Listener.Pass.Acts.{SameSeqs, AtMostOne, act-Yields, same_at, put_seq}

-- A PDU of the priority for the controller moved the sequence numbers of that channel, and of no other.
pub record PduHeard (endpoint : AlarmEndpoint) (header : RtaHeader) (is_high : Bool) (l : Channels)
    (r : Passed) : Type 0 where
  pub addressed : header.alarm_dst_endpoint ≡ endpoint.controller_ref
  pub moved : (channel_of is_high r.channels).seq ≡ (on_pdu header (channel_of is_high l).seq).1
  pub other_same : (channel_of (not is_high) r.channels).seq ≡ (channel_of (not is_high) l).seq
  pub at_most_one : AtMostOne (on_pdu header (channel_of is_high l).seq).0 r

-- The PDU in an alarm frame of the device was heard.
pub record FrameHeard (endpoint : AlarmEndpoint) (incoming : Incoming) (l : Channels) (r : Passed)
    : Type 0 where
  pub frame : Bytes
  pub is_high : Bool
  pub payload : Bytes
  pub header : RtaHeader
  pub arrived : incoming ≡ frame_in frame
  pub is_alarm : IsAlarmFrame frame endpoint.device_mac is_high payload
  pub read : Header.from_bytes payload ≡ ok header
  pub heard : PduHeard endpoint header is_high l r

abbrev NothingHeard : Channels → Passed → Type 0
NothingHeard l r = SameSeqs l r.channels × (r.delivered ≡ [])

-- What a pass may do with what the socket gives, from channels with these sequence numbers.
abbrev pub Passes : AlarmEndpoint → Incoming → Channels → Passed → Type 0
Passes endpoint incoming l r = NothingHeard l r ⊎ FrameHeard endpoint incoming l r

-- A header that was read.
abbrev WasRead : Exec RtaHeader → Option RtaHeader → Type 0
WasRead m none = Unit {0}
WasRead m (some header) = m ≡ ok header

to_option-WasRead : (m : Exec RtaHeader) → Back m → Yields (to_option m) (WasRead m)
to_option-WasRead (ok header) b = refl
to_option-WasRead (err e) b = tt
to_option-WasRead panic b = b
to_option-WasRead stuck b = b

module _ (endpoint : AlarmEndpoint) (mac : Bytes) where
  handle_pdu-Yields :
      (h : RtaHeader) (high : Bool) (payload : Bytes) (later : ℕ) (l : Channels)
      → h.alarm_dst_endpoint ≡ endpoint.controller_ref
      → Yields (handle_pdu endpoint mac h high payload later l) (PduHeard endpoint h high l)
  unfolding handle_pdu
  handle_pdu-Yields h high payload later l e =
      let c = channel_of high l in
      let (action, q) = on_pdu h c.seq in
      let l' = with_channel high (record c { seq = q }) l in
      let put = put_seq high q l in
      Yields-map (act endpoint mac action high payload later l') _ _
        (λ r k. record {
          addressed = e;
          moved = same_at high l' r.channels k.0 ∙ put.0;
          other_same = same_at (not high) l' r.channels k.0 ∙ put.1;
          at_most_one = k.1;
        })
        (act-Yields endpoint mac action high payload later l')

  -- Nothing was heard, or the PDU that the payload of the frame begins with.
  module _ (frame payload : Bytes) (high : Bool)
      (alarm : IsAlarmFrame frame endpoint.device_mac high payload) where
    handle_header-Yields :
        (header : Option RtaHeader) (later : ℕ) (l : Channels)
        → WasRead (Header.from_bytes payload) header
        → Yields
            (handle_header endpoint mac header high payload later l)
            (Passes endpoint (frame_in frame) l)
    unfolding handle_header
    handle_header-Yields none later l w = inl ((refl, refl), refl)
    handle_header-Yields (some rta) later l w =
        if-Yields (rta.alarm_dst_endpoint == endpoint.controller_ref) _ _ _
          (λ e.
            Yields-map (handle_pdu endpoint mac rta high payload later l) _ _
              (λ r k. inr (record {
                frame = frame;
                is_high = high;
                payload = payload;
                header = rta;
                arrived = refl;
                is_alarm = alarm;
                read = w;
                heard = k;
              }))
              (handle_pdu-Yields rta high payload later l
                ((==_iff rta.alarm_dst_endpoint endpoint.controller_ref).0 e)))
          (λ _. inl ((refl, refl), refl))

  handle_payload-Yields :
      (frame : Bytes) (checked : Option (Bool × Bytes)) (later : ℕ) (l : Channels)
      → Checked frame endpoint.device_mac checked
      → Yields (handle_payload endpoint mac checked later l) (Passes endpoint (frame_in frame) l)
  unfolding handle_payload
  handle_payload-Yields frame none later l k = inl ((refl, refl), refl)
  handle_payload-Yields frame (some (high, payload)) later l k =
      Yields-bind (to_option (Header.from_bytes payload)) _ _ _
        (to_option-WasRead (Header.from_bytes payload) (header-Back payload))
        (λ header w. handle_header-Yields frame payload high k header later l w)

  receive_pass-Yields :
      (incoming : Incoming) (later : ℕ) (l : Channels)
      → Yields (receive_pass endpoint mac incoming later l) (Passes endpoint incoming l)
  unfolding receive_pass
  receive_pass-Yields timed_out later l = inl ((refl, refl), refl)
  receive_pass-Yields failed later l = inl ((refl, refl), refl)
  receive_pass-Yields (frame_in frame) later l =
      Yields-bind (check_layer2_frame frame endpoint.device_mac) _ _ _
        (check_layer2_frame-Checked frame endpoint.device_mac)
        (λ checked k. handle_payload-Yields frame checked later l k)

  pub serve_both-SameSeqs : (now : ℕ) (l : Channels) → SameSeqs l (serve_both endpoint mac now l).1
  unfolding serve_both
  serve_both-SameSeqs now l = (
    (service-Keeps endpoint mac (retransmit_after endpoint) now l.low).0,
    (service-Keeps endpoint mac (retransmit_after endpoint) now l.high).0,
  )

  -- What was heard after the channels were served, with what they sent put before it.
  PduHeard-after :
      (h : RtaHeader) (high : Bool) (l l' : Channels) (r : Passed) (before : List Bytes)
      → SameSeqs l l'
      → PduHeard endpoint h high l' r
      → PduHeard endpoint h high l (record r { sent = before ++ r.sent })
  PduHeard-after h high l l' r before s p =
      let at = same_at high l l' s in
      record {
        addressed = p.addressed;
        moved = p.moved ∙ ap (λ q. (on_pdu h q).1) at;
        other_same = p.other_same ∙ same_at (not high) l l' s;
        at_most_one = subst (λ q. AtMostOne (on_pdu h q).0 r) at p.at_most_one;
      }

  pub Passes-after :
      (incoming : Incoming) (l l' : Channels) (r : Passed) (before : List Bytes)
      → SameSeqs l l'
      → Passes endpoint incoming l' r
      → Passes endpoint incoming l (record r { sent = before ++ r.sent })
  Passes-after incoming l l' r before s (inl (k, n)) = inl ((k.0 ∙ s.0, k.1 ∙ s.1), n)
  Passes-after incoming l l' r before s (inr p) = inr (record {
    frame = p.frame;
    is_high = p.is_high;
    payload = p.payload;
    header = p.header;
    arrived = p.arrived;
    is_alarm = p.is_alarm;
    read = p.read;
    heard = PduHeard-after p.header p.is_high l l' r before s p.heard;
  })

-- A pass of the receive loop comes back, whatever the socket gives. It either leaves the sequence numbers
-- of both priorities and gives no alarm on; or the socket gave a frame from the device's MAC address, with
-- the PROFINET EtherType behind its VLAN tags and the frame ID of one of the priorities; the header read
-- from its payload is addressed to this controller; the sequence numbers of that priority moved as
-- `on_pdu` says for that header, the others not; and at most one alarm is given on, and that only if
-- `on_pdu` accepted the PDU.
pub listen_pass-Yields :
    (endpoint : AlarmEndpoint) (mac : Bytes) (now : ℕ) (incoming : Incoming) (later : ℕ)
    (l : Channels)
    → Yields (listen_pass endpoint mac now incoming later l) (Passes endpoint incoming l)
unfolding listen_pass
listen_pass-Yields endpoint mac now incoming later l =
    let served = serve_both endpoint mac now l in
    Yields-bind (receive_pass endpoint mac incoming later served.1) _
      (Passes endpoint incoming served.1) _
      (receive_pass-Yields endpoint mac incoming later served.1)
      (λ r p.
        Passes-after endpoint mac incoming l served.1 r served.0
          (serve_both-SameSeqs endpoint mac now l) p)
