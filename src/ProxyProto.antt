-- ===== src/ProxyProto.antt =====
-- src/tessera/proxyproto.py: the PROXY protocol v2 header at the front of a connection. A stream
-- is the list of the bytes that are still to come before its end.
pub mod Header
use tessera_server.Common.{
  ℕ, ◌+◌, ◌*◌, ◌/◌, ◌%◌, Bool, ◌||◌, not, List, [], ◌∷◌, ◌++◌, Result, ok, raise, ◌>>=◌, ◌>>◌,
  raise_if, length, take, drop, ltb, ◌==◌, if◌then◌else◌,
}
use tessera_server.Common.Int.{pos}
use tessera_server.Bytes.{Bytes}
use tessera_server.Bytes.Numbers.{decimal, from_big}
use tessera_server.Envelope.{bytes_eq}
use tessera_server.Http.{Uncaught, exception}

-- ProxyProtocolError, by its message.
pub data ProxyError : Type 0 where
  truncated bad_header_signature bad_version bad_command bad_family bad_length : ProxyError

-- b"\r\n\r\n\x00\r\nQUIT\n"
abbrev pub ppv2_signature : Bytes
ppv2_signature = 13 ∷ 10 ∷ 13 ∷ 10 ∷ 0 ∷ 13 ∷ 10 ∷ 81 ∷ 85 ∷ 73 ∷ 84 ∷ 10 ∷ []

abbrev pub ppv2_hdr_bytes : ℕ
ppv2_hdr_bytes = 16

abbrev pub ppv2_inet_bytes : ℕ
ppv2_inet_bytes = 12

abbrev pub ver_cmd_proxy : ℕ
ver_cmd_proxy = 0x21

abbrev pub fam_inet_stream : ℕ
fam_inet_stream = 0x11

abbrev pub max_addr_block : ℕ
max_addr_block = 536

-- _read_exactly: the bytes, and the stream behind them
unfoldable pub read_exactly : ℕ → Bytes → Result ProxyError (Bytes × Bytes)
read_exactly count stream = do
  let chunk = take count stream
  raise_if (not (length chunk == count)) truncated
  ok (chunk, drop count stream)

-- header[i]; out of range cannot happen behind read_exactly
abbrev pub byte_at : ℕ → Bytes → ℕ
byte_at i bs = elim (drop i bs) [ [] ↦ 0 | b ∷ rest ↦ b ]

-- str(IPv4Address(packed)), as character codes
unfoldable pub dotted : Bytes → Bytes
dotted [] = []
dotted (b ∷ []) = decimal (pos b)
dotted (b ∷ c ∷ rest) = decimal (pos b) ++ (b'.' ∷ dotted (c ∷ rest))

-- read_ppv2_header: the client's address and port, and the stream behind the header
unfoldable pub read_ppv2_header : Bytes → Result ProxyError ((Bytes × ℕ) × Bytes)
unfolding read_exactly
read_ppv2_header stream = do
  (header, after_header) ← read_exactly ppv2_hdr_bytes stream
  raise_if (not (bytes_eq (take 12 header) ppv2_signature)) bad_header_signature
  raise_if (not (byte_at 12 header / 16 == 2)) bad_version
  raise_if (not (byte_at 12 header == ver_cmd_proxy)) bad_command
  raise_if (not (byte_at 13 header == fam_inet_stream)) bad_family
  let size = from_big 0 (take 2 (drop 14 header))
  raise_if (ltb size ppv2_inet_bytes || ltb max_addr_block size) bad_length
  (block, after_block) ← read_exactly size after_header
  ok ((dotted (take 4 block), from_big 0 (take 2 (drop 8 block))), after_block)

-- n.to_bytes(2, "big"); OverflowError if n does not fit
abbrev pub two_bytes : ℕ → Result Uncaught Bytes
two_bytes n = if ltb n 65536 then ok ((n / 256) ∷ (n % 256) ∷ []) else raise exception

-- build_ppv2_header, with the two addresses already packed
unfoldable pub build_ppv2_header : Bytes → ℕ → Bytes → ℕ → Result Uncaught Bytes
build_ppv2_header src_ip src_port dst_ip dst_port = do
  src ← two_bytes src_port
  dst ← two_bytes dst_port
  let body = src_ip ++ (dst_ip ++ (src ++ dst))
  size ← two_bytes (length body)
  ok (ppv2_signature ++ (ver_cmd_proxy ∷ fam_inet_stream ∷ (size ++ body)))
