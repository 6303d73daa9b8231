-- ===== src/Capture/Reader/Progress.antt =====
-- The loops over the records of a capture file end, src/net/capture/pcap_reader.cpp.
use pcap_analyzer.Prelude.{
  ℕ, zero, suc, ◌+◌, ◌-◌, ◌≤◌, ◌<◌, ◌≡◌, refl, ap, ◌∙◌, inl, inr, Bool, true, false, ltb, le→ltb,
  Bool-cases, if◌then◌else◌, List, ◌++◌, length, length-append, length-drop, take-length_append,
  drop-length_append, Option, none, some, Option-cases, arith,
}
use pcap_analyzer.Util.ParseError.{ParseError, Result, ok, err, unexpected_eof_f}
use pcap_analyzer.Util.Endian.{Endian}
use pcap_analyzer.Decode.Packet.{Packet, set_datatype_from_linktype}
use pcap_analyzer.Capture.Pcap.{PacketHeader, parse_packet_header, packet_header_len}
use pcap_analyzer.Capture.Pcap.Records.{encode, IsRecord, parse_packet_header-encode}
use pcap_analyzer.Capture.Reader.{
  Reader, Frame, ends, frame, next_frame, frame_of, decode_frame, read_loop, read_packet, read_all,
  time_of, note_skip, settle,
}

parse_packet_header-length :
    (span : List ℕ) (endian : Endian) {p : PacketHeader × List ℕ}
    → parse_packet_header span endian ≡ ok p
    → (length p.1 + 16 ≤ length span) × (0 < p.0.incl_len)
unfolding parse_packet_header
parse_packet_header-length span endian h = ground (arith, length-drop 16 span)

frame_rest :
    (h : PacketHeader) (b c : List ℕ) (h' : PacketHeader) (b' c' : List ℕ)
    → frame h b c ≡ frame h' b' c'
    → c ≡ c'
frame_rest h b c h' b' c' e = cc

frame_of-length :
    (span : List ℕ) (header : PacketHeader) (behind : List ℕ) (h : PacketHeader)
    (bytes rest : List ℕ)
    → frame_of span (ok (header, behind)) ≡ frame h bytes rest
    → (length rest ≡ length behind - header.incl_len) × (header.incl_len ≤ length behind)
frame_of-length span header behind h bytes rest e =
    ground (arith, length-drop header.incl_len behind)

-- A frame takes its record header and some data from the file.
next_frame-length :
    (span : List ℕ) (endian : Endian) {h : PacketHeader} {bytes rest : List ℕ}
    → next_frame span endian ≡ frame h bytes rest
    → length rest + 16 < length span
unfolding next_frame
next_frame-length span endian {h = h} {bytes = bytes} {rest = rest} e =
    from (ltb (length span) packet_header_len) (parse_packet_header span endian) refl e
  where
    from :
        (short : Bool) (r : Result (PacketHeader × List ℕ))
        → parse_packet_header span endian ≡ r
        → (if short then ends unexpected_eof_f span else frame_of span r) ≡ frame h bytes rest
        → length rest + 16 < length span
    from true r q e = cc
    from false (err code) q e = cc
    from false (ok (header, behind)) q e = omega (
      arith,
      parse_packet_header-length span endian q,
      frame_of-length span header behind h bytes rest e,
    )

encode-length :
    (h : PacketHeader) (endian : Endian) (rest : List ℕ)
    → length (encode h endian ++ rest) ≡ 16 + length rest
encode-length h Endian.little rest = omega arith
encode-length h Endian.big rest = omega arith

whole :
    (h : PacketHeader) (span bytes rest : List ℕ)
    → h.incl_len ≡ length bytes
    → frame_of span (ok (h, bytes ++ rest)) ≡ frame h bytes rest
whole h span bytes rest e =
    rw
      (
        e,
        le→ltb (length (bytes ++ rest)) (length bytes) (omega (arith, length-append bytes rest)),
        take-length_append bytes rest,
        drop-length_append bytes rest,
      )
      refl

otherwise {ℓ} : {A : Type ℓ} {b : Bool} (x y : A) → b ≡ false → (if b then x else y) ≡ y
otherwise x y e = ap (λ c. if c then x else y) e

framed :
    (span : List ℕ) (endian : Endian) {p : PacketHeader × List ℕ}
    → parse_packet_header span endian ≡ ok p
    → 16 ≤ length span
    → next_frame span endian ≡ frame_of span (ok p)
unfolding next_frame
framed span endian e h = otherwise _ _ (le→ltb (length span) 16 h) ∙ ap (frame_of span) e

-- A record that is written into a file, its header and then as many bytes as it says, is the next
-- frame, and the reader stands behind it.
pub next_frame-encode :
    (h : PacketHeader) (endian : Endian) (bytes rest : List ℕ)
    → IsRecord h
    → h.incl_len ≡ length bytes
    → next_frame (encode h endian ++ (bytes ++ rest)) endian ≡ frame h bytes rest
next_frame-encode h endian bytes rest v e =
    framed (encode h endian ++ (bytes ++ rest)) endian
      (parse_packet_header-encode h endian (bytes ++ rest) v)
      (omega (arith, encode-length h endian (bytes ++ rest)))
    ∙ whole h (encode h endian ++ (bytes ++ rest)) bytes rest e

note_skip-span {ℓ} :
    {D : Type ℓ} (r : Reader D) (code : ParseError) → (note_skip r code).span ≡ r.span
note_skip-span r code = ground arith

settle-span {ℓ} :
    {D : Type ℓ} (r : Reader D) (ts_us : ℕ) (h : PacketHeader) (pkt : Packet)
    (result : Result Packet)
    → (settle r ts_us h pkt result).0.span ≡ r.span
settle-span r ts_us h pkt (err code) = note_skip-span _ code
settle-span r ts_us h pkt (ok out) = refl

module _ {ℓ} {D : Type ℓ} (decode : D → List ℕ → Packet → ℕ → ℕ → D × Result Packet) where
  decode_frame-span :
      (r : Reader D) (h : PacketHeader) (bytes rest : List ℕ)
      → (decode_frame decode r h bytes rest).0.span ≡ rest
  unfolding decode_frame
  decode_frame-span r h bytes rest =
      settle-span
        (record r {
          span = rest;
          decoder =
              (decode r.decoder bytes (set_datatype_from_linktype r.capture.pkt r.linktype)
                h.incl_len (time_of r.is_nsec h)).0;
        })
        _ h _ _

  -- The call returned, and after a decoded packet the file is shorter than `n` bytes.
  abbrev pub Advances : ℕ → Reader D × Option ParseError → Type 0
  Advances n (r, some code) = Unit {0}
  Advances n (r, none) = length r.span < n

  Advances-mono : (m n : ℕ) (p : Reader D × Option ParseError) → m ≤ n → Advances m p → Advances n p
  Advances-mono m n (r, some code) h v = tt
  Advances-mono m n (r, none) h v = omega arith

  read_loop-total :
      (fuel : ℕ) (r : Reader D)
      → length r.span < fuel
      → (p : Reader D × Option ParseError) × (read_loop decode fuel r ≡ some p)
        × Advances (length r.span) p
  unfolding read_loop
  read_loop-total zero r h = absurd (omega arith)
  read_loop-total (suc fuel) r h = from (read_loop-total fuel) (next_frame r.span r.endian) refl
    where
      from :
          ((s : Reader D)
            → length s.span < fuel
            → (p : Reader D × Option ParseError) × (read_loop decode fuel s ≡ some p)
              × Advances (length s.span) p)
          → (f : Frame) → next_frame r.span r.endian ≡ f
          → (p : Reader D × Option ParseError) × (read_loop decode (suc fuel) r ≡ some p)
            × Advances (length r.span) p
      from later (ends code rest) e =
          rw (e, read_loop) ((record r { span = rest }, some code), refl, tt)
      from later (frame header bytes rest) e =
          elim (Bool-cases (decode_frame decode r header bytes rest).1) [
            | inl done ↦
                rw (e, read_loop, done)
                  (
                    ((decode_frame decode r header bytes rest).0, none),
                    refl,
                    omega (
                      arith,
                      next_frame-length r.span r.endian e,
                      ap length (decode_frame-span r header bytes rest),
                    ),
                  )
            | inr failed ↦
                rw (e, read_loop, failed)
                  (let (p, q, v) = later (decode_frame decode r header bytes rest).0 (
                      omega (
                        arith,
                        next_frame-length r.span r.endian e,
                        ap length (decode_frame-span r header bytes rest),
                      )) in
                    (
                      p,
                      q,
                      Advances-mono _ (length r.span) p
                          (omega (
                            arith,
                            next_frame-length r.span r.endian e,
                            ap length (decode_frame-span r header bytes rest),
                          ))
                          v,
                    ))
          ]

  read_packet-total :
      (r : Reader D)
      → (p : Reader D × Option ParseError) × (read_packet decode r ≡ some p)
        × Advances (length r.span) p
  unfolding read_packet
  read_packet-total r = elim (Option-cases r.header_err) [
    | inl e ↦ rw (e, read_packet) (read_loop-total (suc (length r.span)) r (omega arith))
    | inr (code, e) ↦ rw (e, read_packet) ((r, some code), refl, tt)
  ]

  -- Reading all packets of a file ends: one more round than the file has bytes left is enough, and
  -- within each round `readPacket` returns.
  pub read_all-total :
      (fuel : ℕ) (r : Reader D)
      → length r.span < fuel
      → (last : Reader D) × (read_all decode fuel r ≡ some last)
  unfolding read_all
  read_all-total zero r h = absurd (omega arith)
  read_all-total (suc fuel) r h = from (read_all-total fuel) (read_packet-total r)
    where
      from :
          ((s : Reader D)
            → length s.span < fuel
            → (last : Reader D) × (read_all decode fuel s ≡ some last))
          → (p : Reader D × Option ParseError) × (read_packet decode r ≡ some p)
            × Advances (length r.span) p
          → (last : Reader D) × (read_all decode (suc fuel) r ≡ some last)
      from later ((last, some code), e, v) = rw (e, read_all) (last, refl)
      from later ((next, none), e, v) = rw (e, read_all) (later next (omega arith))
