-- ===== src/ProxyProto/Header.antt =====
-- Which streams read_ppv2_header accepts, and what it leaves of them.
use tessera_server.Common.{
  ℕ, ◌/◌, ◌%◌, ◌≤◌, ◌<◌, ◌≡◌, refl, true, [], ◌∷◌, ◌++◌, ok, arith, length, take, drop,
  take-append-drop,
}
use tessera_server.Bytes.{Bytes}
use tessera_server.Bytes.Numbers.{from_big}
use tessera_server.Envelope.{bytes_eq}
use tessera_server.ProxyProto.{
  ppv2_signature, ppv2_hdr_bytes, ppv2_inet_bytes, ver_cmd_proxy, fam_inet_stream, max_addr_block,
  read_exactly, byte_at, dotted, read_ppv2_header, build_ppv2_header,
}

-- With ports below 65536 build_ppv2_header makes a header, which is read back: the source address
-- and port, and exactly the bytes that follow the header.
pub read-build_ppv2_header :
    (a b c d e f g h src_port dst_port : ℕ) (rest : Bytes)
    → src_port < 65536
    → dst_port < 65536
    → (header : Bytes) × (build_ppv2_header
          (a ∷ b ∷ c ∷ d ∷ [])
          src_port
          (e ∷ f ∷ g ∷ h ∷ [])
          dst_port
        ≡ ok header)
      × (read_ppv2_header (header ++ rest) ≡ ok ((dotted (a ∷ b ∷ c ∷ d ∷ []), src_port), rest))
unfolding read_ppv2_header build_ppv2_header from_big
read-build_ppv2_header a b c d e f g h src_port dst_port rest fits fits' = (
  ppv2_signature
      ++ (ver_cmd_proxy
          ∷ fam_inet_stream
          ∷ 0
          ∷ 12
          ∷ a
          ∷ b
          ∷ c
          ∷ d
          ∷ e
          ∷ f
          ∷ g
          ∷ h
          ∷ (src_port / 256)
          ∷ (src_port % 256)
          ∷ (dst_port / 256)
          ∷ (dst_port % 256)
          ∷ []),
  ground arith,
  ground arith,
)

-- What is accepted: a stream of a 16-byte header with the signature, the version and command byte
-- 0x21 and the family byte 0x11, then an address block of 12 to 536 bytes, as long as the header
-- says; all of both is consumed and the rest of the stream is what follows.
pub read_ppv2_header_sound :
    (stream rest ip : Bytes) (port : ℕ)
    → read_ppv2_header stream ≡ ok ((ip, port), rest)
    → (header : Bytes) × (block : Bytes) × (stream ≡ header ++ (block ++ rest))
      × (length header ≡ ppv2_hdr_bytes)
      × (bytes_eq (take 12 header) ppv2_signature ≡ true)
      × (byte_at 12 header ≡ ver_cmd_proxy)
      × (byte_at 13 header ≡ fam_inet_stream)
      × (length block ≡ from_big 0 (take 2 (drop 14 header)))
      × (ppv2_inet_bytes ≤ length block)
      × (length block ≤ max_addr_block)
      × (ip ≡ dotted (take 4 block))
      × (port ≡ from_big 0 (take 2 (drop 8 block)))
unfolding read_ppv2_header read_exactly
read_ppv2_header_sound stream rest ip port e =
    let header = take ppv2_hdr_bytes stream in
    let after = drop ppv2_hdr_bytes stream in
    let size = from_big 0 (take 2 (drop 14 header)) in
    let block = take size after in
    let left : rest ≡ drop size after = ground arith in
    (
      header,
      block,
      rw (left, take-append-drop size after, take-append-drop ppv2_hdr_bytes stream) refl,
      ground arith,
      ground arith,
      ground arith,
      ground arith,
      ground arith,
      ground arith,
      ground arith,
      ground arith,
      ground arith,
    )
