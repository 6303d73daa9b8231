-- ===== src/Protocols/Http/Header.antt =====
-- The types of include/net/protocols/http.h.
use pcap_analyzer.Prelude.{ℕ, Bool, true, false, List, []}

abbrev pub port : ℕ
port = 80

pub data MessageType : Type 0 where
  unknown request response : MessageType

pub record Field : Type 0 where
  pub name : List ℕ
  pub value : List ℕ

pub record Header : Type 0 where
  pub type : MessageType
  pub method : List ℕ
  pub target : List ℕ
  pub version : List ℕ
  pub status_code : ℕ
  pub reason_phrase : List ℕ
  pub fields : List Field
  pub has_content_length : Bool
  pub content_length : ℕ
  pub chunked : Bool

abbrev pub empty_header : Header
empty_header = record {
  type = MessageType.unknown;
  method = [];
  target = [];
  version = [];
  status_code = 0;
  reason_phrase = [];
  fields = [];
  has_content_length = false;
  content_length = 0;
  chunked = false;
}

abbrev pub is_request : MessageType → Bool
is_request MessageType.request = true
is_request _ = false

abbrev pub is_response : MessageType → Bool
is_response MessageType.response = true
is_response _ = false
