-- ===== src/Protocols/Http/Body.antt =====
-- `parseChunkedBody`, src/net/protocols/http.cpp. The body is always collected.
use pcap_analyzer.Prelude.{
  ℕ, zero, suc, ◌+◌, ◌-◌, not, ◌==◌, ltb, if◌then◌else◌, List, [], ◌++◌, length, take, drop,
}
use pcap_analyzer.Util.ParseError.{ParseError, Result, ok, err, unexpected_eof, malformed_header}
use pcap_analyzer.Protocols.Http.Header.{Field}
use pcap_analyzer.Protocols.Http.Text.{read_line_crlf, parse_chunk_size}
use pcap_analyzer.Protocols.Http.Fields.{parse_fields}

-- One round of `parseChunkedBody`: an error, the last chunk, or a chunk and what is behind it.
pub data ChunkRound : Type 0 where
  refused : ParseError → ChunkRound
  last : List ℕ → ChunkRound
  chunk : List ℕ → List ℕ → ChunkRound

-- The line end behind the data of a chunk.
unfoldable pub chunk_end : List ℕ → Result (List ℕ × List ℕ) → ChunkRound
chunk_end bytes (err code) = refused code
chunk_end bytes (ok (terminator, rest)) =
    if not (length terminator == 0) then refused malformed_header else chunk bytes rest

unfoldable pub chunk_data : Result ℕ → List ℕ → ChunkRound
unfolding chunk_end read_line_crlf
chunk_data (err code) rest = refused code
chunk_data (ok chunk_size) rest =
    if chunk_size == 0
    then last rest
    else if ltb (length rest) chunk_size
    then refused unexpected_eof
    else chunk_end (take chunk_size rest) (read_line_crlf (drop chunk_size rest))

unfoldable pub chunk_round : Result (List ℕ × List ℕ) → ChunkRound
unfolding chunk_data parse_chunk_size
chunk_round (err code) = refused code
chunk_round (ok (size_line, rest)) = chunk_data (parse_chunk_size size_line) rest

-- What `parseChunkedBody` returns, the body and the rest, and what it writes to `complete_prefix`.
pub record Chunked : Type 0 where
  pub outcome : Result (List ℕ × List ℕ)
  pub complete_prefix : ℕ

-- The fields behind the last chunk are read and not kept.
unfoldable pub trailer : List ℕ → ℕ → Result (List Field × List ℕ) → Chunked
trailer out boundary (err code) = record { outcome = err code; complete_prefix = boundary }
trailer out boundary (ok (fields, rest)) = record { outcome = ok (out, rest); complete_prefix = 0 }

-- `total` is the size of the whole span.
unfoldable pub chunks_loop : ℕ → ℕ → List ℕ → List ℕ → ℕ → Chunked
unfolding chunk_round read_line_crlf parse_fields trailer
chunks_loop zero total span out boundary = record {
  outcome = err unexpected_eof;
  complete_prefix = boundary;
}
chunks_loop (suc fuel) total span out boundary = elim (chunk_round (read_line_crlf span)) [
  | refused code ↦ record { outcome = err code; complete_prefix = boundary }
  | last rest ↦ trailer out boundary (parse_fields rest [])
  | chunk bytes rest ↦ chunks_loop fuel total rest (out ++ bytes) (total - length rest)
]

unfoldable pub parse_chunked_body : List ℕ → Chunked
unfolding chunks_loop
parse_chunked_body span = chunks_loop (length span + 1) (length span) span [] 0
