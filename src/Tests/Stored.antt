-- ===== src/Tests/Stored.antt =====
-- The theorems on the blob store and on the signed message, at concrete calls.
use tessera_server.Common.{◌≡◌, refl, String, List, [], ◌∷◌, ok}
use tessera_server.Common.Int.{pos}
use tessera_server.Bytes.{Bytes}
use tessera_server.Bytes.Codec.{encode_ascii, encode_utf8, utf8_char}
use tessera_server.Bytes.Numbers.{decimal, decimal_onto}
use tessera_server.Store.{BlobPath, path_for, validated}
use tessera_server.Store.Map.{Call, run, replay, run_refines, contents}
use tessera_server.Store.Paths.{IsHexName, path_for_safe}
use tessera_server.Signing.{canonical_message, join_lines}
use tessera_server.Signing.Message.{canonical_message_determines}
use tessera_server.Tests.Fixtures.{some_hasher, some_model}

abbrev some_calls : List Call
some_calls =
    Call.put (1 ∷ 2 ∷ [])
    ∷ Call.get some_model.model_hash
    ∷ Call.delete some_model.model_hash
    ∷ Call.exists "../../etc/passwd"
    ∷ Call.put (3 ∷ 4 ∷ [])
    ∷ []

run_refines_example :
    ((run some_hasher some_calls []).0 ≡ (replay some_hasher some_calls (contents [])).0)
    × (contents (run some_hasher some_calls []).1 ≡ (replay some_hasher some_calls (contents [])).1)
run_refines_example = run_refines some_hasher some_calls []

abbrev some_path : BlobPath
some_path = record { first = "02"; second = "00"; name = some_model.model_hash }

some_path-found : path_for some_model.model_hash ≡ ok some_path
unfolding validated
some_path-found = refl

path_for_safe_example :
    IsHexName 2 "02"
    × IsHexName 2 "00"
    × IsHexName 64 some_model.model_hash
    × (some_path.name ≡ some_model.model_hash)
path_for_safe_example = path_for_safe some_model.model_hash some_path some_path-found

-- "tessera-v1", "GET", "/m", "7", "ab" and "cd", line by line.
abbrev some_message : Bytes
some_message =
    116 ∷ 101 ∷ 115 ∷ 115 ∷ 101 ∷ 114 ∷ 97 ∷ 45 ∷ 118 ∷ 49 ∷ 10 ∷ 71 ∷ 69 ∷ 84 ∷ 10 ∷ 47 ∷ 109 ∷ 10
    ∷ 55 ∷ 10 ∷ 97 ∷ 98 ∷ 10 ∷ 99 ∷ 100 ∷ []

some_message-canonical : canonical_message "GET" "/m" (pos 7) "ab" "cd" ≡ ok some_message
unfolding canonical_message join_lines encode_ascii encode_utf8 utf8_char decimal decimal_onto
some_message-canonical = refl

canonical_message_determines_example :
    (◌≡◌ {A = String} "GET" "GET")
    × (◌≡◌ {A = String} "/m" "/m")
    × (pos 7 ≡ pos 7)
    × (◌≡◌ {A = String} "ab" "ab")
    × (◌≡◌ {A = String} "cd" "cd")
canonical_message_determines_example =
    canonical_message_determines "GET" "/m" "ab" "cd" (pos 7) "GET" "/m" "ab" "cd" (pos 7)
      some_message (refl, refl, refl, refl) (refl, refl, refl, refl) some_message-canonical
      some_message-canonical
