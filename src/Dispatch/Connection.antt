-- ===== src/Dispatch/Connection.antt =====
-- TesseraHandler.setup of src/tessera/http_server.py: the address that a connection counts as. An
-- address is the list of its characters; `is_trusted` tells whether ip_network(trusted_proxy_cidr)
-- has the peer.
use tessera_server.Common.{
  ◌≡◌, ◌≤◌, ◌⊎◌, Option, none, some, [], drop, true, false, Bool, not, ◌++◌, ok, raise, length,
  take, if◌then◌else◌,
}
use tessera_server.Bytes.{Bytes}
use tessera_server.Config.{TesseraConfig}
use tessera_server.ProxyProto.{
  ProxyError, truncated, dotted, read_ppv2_header, ppv2_hdr_bytes, ppv2_inet_bytes, max_addr_block,
  ppv2_signature,
}
use tessera_server.Envelope.{bytes_eq}

-- The two calls of _refuse.
pub data SetupFault : Type 0 where
  untrusted_peer : SetupFault
  bad_header : ProxyError → SetupFault

-- What setup leaves for handle(), which runs even behind a refusal: the address that the requests
-- count as, the refusal that has been written, if any, and the stream that they are read from.
pub record Connection : Type 0 where
  pub client_ip : Bytes
  pub refused : Option SetupFault
  pub stream : Bytes

-- The stream behind a header that was not accepted: a read that got too little reached its end.
abbrev pub behind_bad_header : ProxyError → Bytes → Bytes
behind_bad_header truncated stream = []
behind_bad_header _ stream = drop ppv2_hdr_bytes stream

-- setup
unfoldable pub setup : TesseraConfig → (Bytes → Bool) → Bytes → Bytes → Connection
setup cfg is_trusted peer stream =
    if not cfg.proxy_protocol
    then record { client_ip = peer; refused = none; stream = stream }
    else if not (is_trusted peer)
    then record { client_ip = peer; refused = some untrusted_peer; stream = stream }
    else elim (read_ppv2_header stream) [
      | raise e ↦ record {
        client_ip = peer;
        refused = some (bad_header e);
        stream = behind_bad_header e stream;
      }
      | ok ((ip, port), rest) ↦ record { client_ip = ip; refused = none; stream = rest }
    ]

-- The connection counts as the address in a header with the signature and an address block of 12 to
-- 536 bytes, which are all that was read of the stream.
abbrev pub CountsAsSource : Bytes → Connection → Type 0
CountsAsSource stream c =
    (c.refused ≡ none)
    × ((header : Bytes) × (block : Bytes) × (stream ≡ header ++ (block ++ c.stream))
        × (length header ≡ ppv2_hdr_bytes)
        × (bytes_eq (take 12 header) ppv2_signature ≡ true)
        × (ppv2_inet_bytes ≤ length block)
        × (length block ≤ max_addr_block)
        × (c.client_ip ≡ dotted (take 4 block)))

-- The connection counts as its peer and has been refused, before anything was read if the peer is
-- not trusted, and else behind a header that cannot be read.
abbrev pub CountsAsRefused : Bool → Bytes → Bytes → Connection → Type 0
CountsAsRefused trusted peer stream c =
    (c.client_ip ≡ peer)
    × (((trusted ≡ false) × (c.refused ≡ some untrusted_peer) × (c.stream ≡ stream))
        ⊎ ((e : ProxyError) × (trusted ≡ true)
            × (read_ppv2_header stream ≡ raise e)
            × (c.refused ≡ some (bad_header e))
            × ((c.stream ≡ []) ⊎ (c.stream ≡ drop ppv2_hdr_bytes stream))))
