-- ===== src/Capture/Reader.antt =====
-- include/net/capture/pcap_reader.h and src/net/capture/pcap_reader.cpp: the loop over the records of
-- a capture file. The decoder is a parameter: it takes the frame, `incl_len` and the time, with the
-- packet of the capture before. Timing and the mapping of the file are left out. Progress proves
-- that the loops end.
use pcap_analyzer.Prelude.{
  ℕ, zero, suc, ◌+◌, ◌*◌, ◌/◌, ◌%◌, Bool, true, false, ◌||◌, ◌==◌, ltb, if◌then◌else◌, List, [],
  ◌∷◌, length, take, drop, Option, none, some, add64, u32_mod,
}
use pcap_analyzer.Util.ParseError.{ParseError, Result, ok, err, filtered, unexpected_eof_f}
use pcap_analyzer.Util.Endian.{Endian}
use pcap_analyzer.Decode.Packet.{Packet, set_datatype_from_linktype}
use pcap_analyzer.Capture.Pcap.{
  FileHeader, PacketHeader, parse_packet_header, parse_file_header, packet_header_len,
  file_header_len, pcap_magic_nsec_le, pcap_magic_nsec_be,
}
pub mod Progress

pub record Capture : Type 0 where
  pub ts_us : ℕ
  pub header : PacketHeader
  pub pkt : Packet

-- `header_err` is `none` for `ParseError::None`.
pub record Reader {ℓ} (D : Type ℓ) : Type ℓ where
  pub span : List ℕ
  pub capture : Capture
  pub linktype : ℕ
  pub decoder : D
  pub is_nsec : Bool
  pub endian : Endian
  pub header_err : Option ParseError
  pub skipped : ℕ
  pub last_skip_err : Option ParseError

abbrev pub is_nsec_magic : ℕ → Bool
is_nsec_magic magic = magic == pcap_magic_nsec_le || magic == pcap_magic_nsec_be

-- `readFileHeader`, with what the constructor does with its result.
unfoldable pub read_file_header {ℓ} : {D : Type ℓ} → Reader D → Reader D
unfolding parse_file_header
read_file_header r =
    if ltb (length r.span) file_header_len
    then record r { header_err = some unexpected_eof_f }
    else elim (parse_file_header r.span) [
      | err code ↦ record r { header_err = some code }
      | ok p ↦ record r {
        span = p.2;
        linktype = p.0.linktype;
        endian = p.1;
        is_nsec = is_nsec_magic p.0.magic_number;
        header_err = none;
      }
    ]

-- The time in microseconds; the products of 32-bit words fit in 64 bits.
unfoldable pub time_of : Bool → PacketHeader → ℕ
time_of is_nsec header =
    if is_nsec
    then header.ts_sec * 1000000 + header.ts_usec / 1000
    else header.ts_sec * 1000000 + header.ts_usec

-- One record: the error that ends the call and what is left then, or the header, the frame and the
-- bytes behind it. A record that is cut off is given up behind its header.
pub data Frame : Type 0 where
  ends : ParseError → List ℕ → Frame
  frame : PacketHeader → List ℕ → List ℕ → Frame

abbrev pub frame_of : List ℕ → Result (PacketHeader × List ℕ) → Frame
frame_of span (err code) = ends code span
frame_of span (ok (header, behind)) =
    if ltb (length behind) header.incl_len
    then ends unexpected_eof_f behind
    else frame header (take header.incl_len behind) (drop header.incl_len behind)

unfoldable pub next_frame : List ℕ → Endian → Frame
unfolding parse_packet_header
next_frame span endian =
    if ltb (length span) packet_header_len
    then ends unexpected_eof_f span
    else frame_of span (parse_packet_header span endian)

abbrev pub note_skip {ℓ} : {D : Type ℓ} → Reader D → ParseError → Reader D
note_skip r filtered = r
note_skip r code = record r { skipped = add64 r.skipped 1; last_skip_err = some code }

-- What the loop makes of the decoder's result, and whether a packet was decoded. The packet of a
-- failed record is not read by anyone, so what the decoder has written into it is left out.
abbrev pub settle {ℓ} :
    {D : Type ℓ} → Reader D → ℕ → PacketHeader → Packet → Result Packet → Reader D × Bool
settle r ts_us header pkt (err code) = (
  note_skip (record r { capture = record { ts_us = ts_us; header = header; pkt = pkt } }) code,
  false,
)
settle r ts_us header pkt (ok out) =
    (record r { capture = record { ts_us = ts_us; header = header; pkt = out } }, true)

module _ {ℓ} {D : Type ℓ} (decode : D → List ℕ → Packet → ℕ → ℕ → D × Result Packet) where
  -- The round of the loop for one frame: the reader, and whether a packet was decoded.
  unfoldable pub decode_frame : Reader D → PacketHeader → List ℕ → List ℕ → Reader D × Bool
  unfolding time_of set_datatype_from_linktype
  decode_frame r header bytes rest =
      let ts_us : ℕ = time_of r.is_nsec header in
      let pkt : Packet = set_datatype_from_linktype r.capture.pkt r.linktype in
      let result : D × Result Packet = decode r.decoder bytes pkt header.incl_len ts_us in
      settle (record r { span = rest; decoder = result.0 }) ts_us header pkt result.1

  -- The loop of `readPacket`; `none` when the fuel is used up.
  unfoldable pub read_loop : ℕ → Reader D → Option (Reader D × Option ParseError)
  unfolding next_frame decode_frame
  read_loop zero r = none
  read_loop (suc fuel) r = elim (next_frame r.span r.endian) [
    | ends code rest ↦ some (record r { span = rest }, some code)
    | frame header bytes rest ↦ elim (decode_frame r header bytes rest).1 [
      | true ↦ some ((decode_frame r header bytes rest).0, none)
      | false ↦ read_loop fuel (decode_frame r header bytes rest).0
    ]
  ]

  -- `readPacket`: every round takes at least a record header, so the bytes left are enough fuel.
  unfoldable pub read_packet : Reader D → Option (Reader D × Option ParseError)
  unfolding read_loop
  read_packet r = elim r.header_err [
    | some code ↦ some (r, some code)
    | none ↦ read_loop (suc (length r.span)) r
  ]

  -- `while (readPacket() == ParseError::None);`
  unfoldable pub read_all : ℕ → Reader D → Option (Reader D)
  unfolding read_packet
  read_all zero r = none
  read_all (suc fuel) r = elim (read_packet r) [
    | none ↦ none
    | some p ↦ elim p.1 [ some code ↦ some p.0 | none ↦ read_all fuel p.0 ]
  ]
