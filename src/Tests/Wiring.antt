-- ===== src/Tests/Wiring.antt =====
-- Messages on the wire, and the theorems on them at concrete inputs.
use lite_chat_server.Common.{[], arith, lit, refl, ◌%◌, ◌++◌, ◌/◌, ◌^◌, ◌∷◌, ◌≡◌, nat_eq, str_eq}
use lite_chat_server.Wire.{
  header_of, package_message, parse_message_header, receive_data, send_data,
}
use lite_chat_server.Wire.Sending.{Sent, send_data-delivers}
use lite_chat_server.Wire.Receiving.{Received, Solid, flat, receive_data-Received}
use lite_chat_server.Wire.Roundtrip.{parse_message_header-header_of, receive_data-package_message}
use lite_chat_server.Tests.{fresh_world, test_host}

-- The peer takes two bytes, then fails.
send_data-delivers_example :
    let w = record fresh_world { send_results = 2 ∷ 0 ∷ [] } in
    Sent 5 (package_message (lit "{}")) w (send_data 5 (lit "{}") w).1 (send_data 5 (lit "{}") w).0
send_data-delivers_example =
    send_data-delivers 5 (lit "{}") (record fresh_world { send_results = 2 ∷ 0 ∷ [] })

receive_data-Received_example :
    Received ((0 ∷ 0 ∷ []) ∷ []) (receive_data (9 ∷ 9 ∷ 9 ∷ 9 ∷ []) ((0 ∷ 0 ∷ []) ∷ []))
receive_data-Received_example = receive_data-Received (9 ∷ 9 ∷ 9 ∷ 9 ∷ []) ((0 ∷ 0 ∷ []) ∷ [])

parse_message_header-header_of_example :
    parse_message_header
      (65536 / 2 ^ 24 % 256)
      (65536 / 2 ^ 16 % 256)
      (65536 / 2 ^ 8 % 256)
      (65536 % 256)
    ≡ 65536
parse_message_header-header_of_example = parse_message_header-header_of 65536 (omega arith)

-- A message of three bytes in two chunks, with a byte of the next one behind it.
receive_data-package_message_example :
    let r = receive_data [] ((header_of (3 % 2 ^ 32) ++ 1 ∷ []) ∷ (2 ∷ 3 ∷ 7 ∷ []) ∷ []) in
    (r.0 ≡ 1 ∷ 2 ∷ 3 ∷ []) × (flat r.1 ≡ 7 ∷ []) × Solid r.1
receive_data-package_message_example =
    receive_data-package_message [] (1 ∷ 2 ∷ 3 ∷ []) (1 ∷ []) (7 ∷ []) ((2 ∷ 3 ∷ 7 ∷ []) ∷ [])
      (λ e. cc) (omega arith) ((λ e. cc), tt) refl
