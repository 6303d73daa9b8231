-- ===== src/Protocols/Icmp.antt =====
-- include/net/protocols/icmp.h and src/net/protocols/icmp.cpp.
use pcap_analyzer.Prelude.{
  ℕ, ◌%◌, Bool, not, ◌&&◌, ◌||◌, ◌==◌, ltb, if◌then◌else◌, List, length, drop,
}
use pcap_analyzer.Util.ParseError.{
  Result, ok, ◌>>◌, fail_if, unexpected_eof, invalid_field_value, checksum_mismatch,
}
use pcap_analyzer.Util.Endian.{Endian, to_host16, to_host32, byte_at, read16, read32}
use pcap_analyzer.Util.Checksum.{verify_checksum}

abbrev pub header_len : ℕ
header_len = 8

abbrev pub type_echo_reply : ℕ
type_echo_reply = 0

abbrev pub type_unreachable : ℕ
type_unreachable = 3

abbrev pub type_redirect : ℕ
type_redirect = 5

abbrev pub type_echo_request : ℕ
type_echo_request = 8

abbrev pub type_ttl_exceeded : ℕ
type_ttl_exceeded = 11

abbrev pub type_param_problem : ℕ
type_param_problem = 12

-- The union behind the checksum, by the type of the message that gives it its meaning.
pub data Body : Type 0 where
  echo : ℕ → ℕ → Body
  gateway : ℕ → Body
  other : ℕ → Body

-- `echo.id`: the first two bytes of the union, whatever was written last.
abbrev pub echo_id : Body → ℕ
echo_id (echo id seq) = id
echo_id (gateway w) = w % 65536
echo_id (other w) = w % 65536

pub record Header : Type 0 where
  pub type : ℕ
  pub code : ℕ
  pub checksum : ℕ
  pub body : Body

abbrev pub is_echo : ℕ → Bool
is_echo type = type == type_echo_request || type == type_echo_reply

-- Echo, source quench, timestamp and information messages have code 0 only.
abbrev has_no_code : ℕ → Bool
has_no_code type = is_echo type || type == 4 || type == 13 || type == 14 || type == 15 || type == 16

-- The largest code that the switch of `parse` lets through.
unfoldable pub max_code : ℕ → ℕ
max_code type =
    if has_no_code type
    then 0
    else if type == type_unreachable
    then 15
    else if type == type_redirect
    then 3
    else if type == type_ttl_exceeded
    then 1
    else if type == type_param_problem
    then 1
    else 255

unfoldable pub body_of : List ℕ → ℕ → Endian → Body
body_of span type endian =
    if type == type_redirect
    then gateway (to_host32 (read32 span 4) endian)
    else if is_echo type
    then echo (to_host16 (read16 span 4) endian) (to_host16 (read16 span 6) endian)
    else other (read32 span 4)

unfoldable pub parse : List ℕ → Endian → Bool → Result (Header × List ℕ)
unfolding max_code body_of
parse span endian verify = do
  fail_if (ltb (length span) header_len) unexpected_eof
  let type : ℕ = byte_at span 0
  let code : ℕ = byte_at span 1
  fail_if (ltb (max_code type) code) invalid_field_value
  fail_if (verify && not (verify_checksum span 0)) checksum_mismatch
  ok (
    record {
      type = type;
      code = code;
      checksum = to_host16 (read16 span 2) endian;
      body = body_of span type endian;
    },
    drop header_len span,
  )
