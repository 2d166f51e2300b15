-- ===== src/F123/Transformer/Capture/Limits.antt =====
-- What the capture of packets may change (`handleCapture` of formulatel/f123/f123.go).
use formulatel.Common.{
  ℕ, ◌-◌, ◌+◌, ◌≡◌, ◌≤◌, ◌⊎◌, inl, inr, some, none, List, [], ◌∷◌, ◌++◌, arith, ap, Option,
  Bool-cases, Option-cases, false, ◌==◌, ◌&&◌, ltb, refl, if◌then◌else◌,
}
use formulatel.F123.Buffer.{PacketBuffer, Returned, unpack_header, unpack_body, new_packet_buffer}
use formulatel.F123.Transformer.{Environment, State, returned, pure}
use formulatel.F123.Transformer.Laws.{>>=-returned}
use formulatel.F123.Model.Header.{PacketHeader}
use formulatel.F123.Model.History.{SessionHistoryData, session_history_data_layout}
use formulatel.F123.Model.{session_history_packet}
use formulatel.F123.Transformer.Capture.{
  handle_capture, over_a_second, capture_history, capture_by_header, capture_file,
}

module _ (env : Environment) (packet : List ℕ) (s : State) where
  -- The capture of a packet, whatever it holds and however it ends, sends nothing and records no lap,
  -- and writes the packet at most, as it came.
  pub handle_capture-keeps :
      let t = (handle_capture env packet s).1 in
      (t.sent ≡ s.sent)
      × (t.latest_laps ≡ s.latest_laps)
      × ((t.captured ≡ s.captured) ⊎ (t.captured ≡ s.captured ++ packet ∷ []))
  unfolding handle_capture
  handle_capture-keeps = ground arith

  module _ (last : ℕ) (stamped : s.time_at_last_capture ≡ some last)
      (recent : env.clock s.clock_reads - last ≤ 1000000000) where
    not_due : over_a_second env s ≡ (returned false, record s { clock_reads = s.clock_reads + 1 })
    unfolding over_a_second
    not_due = ground (arith, stamped, recent)

    history_limited :
        (header : PacketHeader) (h : Option SessionHistoryData)
        → (capture_history env packet header h s).1.captured ≡ s.captured
    unfolding capture_history
    history_limited header none = refl
    history_limited header (some h) =
        elim (Bool-cases (h.current_car_idx == header.player_car_index && ltb 1 h.num_laps)) [
          | inl mine ↦
              rw (mine, capture_history)
                (ap (λ x. x.1.captured)
                  (>>=-returned (over_a_second env)
                    (λ due. if due then capture_file env packet h else pure tt) not_due))
          | inr other ↦ rw (other, capture_history) refl
        ]

    by_header_limited :
        (r : Returned PacketHeader) (b : PacketBuffer)
        → (capture_by_header env packet r b s).1.captured ≡ s.captured
    unfolding capture_by_header
    by_header_limited r b = elim (Option-cases r.error) [
      | inr (x, e) ↦ rw (e, capture_by_header) refl
      | inl e ↦ elim (Option-cases r.value) [
        | inl v ↦ rw (e, v, capture_by_header) refl
        | inr (header, v) ↦ elim (Bool-cases (header.packet_id == session_history_packet)) [
          | inr other ↦ rw (e, v, capture_by_header, other) refl
          | inl id ↦
              rw (e, v, capture_by_header, id)
                (history_limited header (unpack_body session_history_data_layout b).0.value)
        ]
      ]
    ]

    -- Within a second of the last capture nothing is written.
    pub handle_capture_limited : (handle_capture env packet s).1.captured ≡ s.captured
    unfolding handle_capture
    handle_capture_limited =
        by_header_limited (unpack_header (new_packet_buffer packet)).0
          (unpack_header (new_packet_buffer packet)).1
