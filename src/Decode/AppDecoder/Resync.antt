-- ===== src/Decode/AppDecoder/Resync.antt =====
-- Where HTTP goes on after a failure, src/net/decode/app_decoder.cpp.
use pcap_analyzer.Prelude.{
  ℕ, ◌+◌, ◌-◌, Bool, true, false, not, ◌&&◌, ◌==◌, ltb, if◌then◌else◌, List, [], ◌∷◌, get_or, drop,
  Option, none, some,
}
use pcap_analyzer.Util.Bytes.{codes, starts_with}
use pcap_analyzer.Flow.TcpReassembler.State.{Reassembler}
use pcap_analyzer.Flow.TcpReassembler.Reading.{available, peek, consume}
use pcap_analyzer.Decode.AppDecoder.State.{Applications, max_http_message_bytes}

abbrev markers : List (List ℕ)
markers =
    codes "HTTP/1.0"
    ∷ codes "HTTP/1.1"
    ∷ codes "GET "
    ∷ codes "POST "
    ∷ codes "PUT "
    ∷ codes "DELETE "
    ∷ codes "HEAD "
    ∷ codes "OPTIONS "
    ∷ codes "PATCH "
    ∷ codes "TRACE "
    ∷ codes "CONNECT "
    ∷ []

unfoldable pub any_starts : List (List ℕ) → List ℕ → Bool
unfolding starts_with
any_starts [] rest = false
any_starts (m ∷ ms) rest =
    let later = any_starts ms rest in if starts_with m rest then true else later

-- The loop of `findHttpResync` from position p, with the byte before it. The source goes from line
-- feed to line feed; here every byte is looked at.
unfoldable pub resync_loop : ℕ → ℕ → List ℕ → Option ℕ
unfolding any_starts
resync_loop before p [] = none
resync_loop before p (b ∷ bs) =
    let later = resync_loop b (p + 1) bs in
    if b == 10 && not (ltb p 2) && before == 13 && any_starts markers bs
    then some (p + 1)
    else later

unfoldable pub find_http_resync : List ℕ → ℕ → Option ℕ
unfolding resync_loop
find_http_resync buf from =
    let p = if ltb from 1 then 1 else from in resync_loop (get_or buf (p - 1) 0) p (drop p buf)

-- What `resyncHttp` does with the result of the search: whether it moved on, the stream and the
-- state.
unfoldable pub resync_at : Reassembler → Applications → Option ℕ → Bool × Reassembler × Applications
unfolding available consume
resync_at stream applications (some at) = (
  true,
  consume stream at,
  record applications {
    decode_failures = applications.decode_failures + 1;
    http_resync_scanned = 0;
  },
)
resync_at stream applications none =
    let avail = available stream in
    if ltb max_http_message_bytes avail
    then (
      true,
      consume stream avail,
      record applications {
        decode_failures = applications.decode_failures + 1;
        http_resync_scanned = 0;
      },
    )
    else (
      false,
      stream,
      record applications { http_resync_scanned = if ltb 8 avail then avail - 8 else 0 },
    )

unfoldable pub resync_http : Reassembler → Applications → Bool × Reassembler × Applications
unfolding resync_at peek find_http_resync
resync_http stream applications =
    resync_at stream (record applications { http_chunk_prefix = 0; http_body_until_close = false })
      (find_http_resync (peek stream) applications.http_resync_scanned)
