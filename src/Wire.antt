-- ===== src/Wire.antt =====
-- The framing of connection/server.cpp: a 4-byte big-endian length, then the body.
pub mod Sending
pub mod Receiving
pub mod Roundtrip
pub mod Calm
use lite_chat_server.Common.{
  Bool, List, Str, [], drop, false, if◌then◌else◌, length, ltb, min, suc, take, true, zero, ℕ, ◌%◌,
  ◌*◌, ◌++◌, ◌+◌, ◌-◌, ◌/◌, ◌==◌, ◌^◌, ◌||◌, ◌∷◌, nat_eq, str_eq,
}
use lite_chat_server.World.{M, pure, ◌>>=◌, ◌>>◌}

-- (length >> k) & 0xFF for the four bytes of a uint32_t
abbrev pub header_of : ℕ → Str
header_of n = (n / 2 ^ 24 % 256) ∷ (n / 2 ^ 16 % 256) ∷ (n / 2 ^ 8 % 256) ∷ (n % 256) ∷ []

unfoldable pub package_message : Str → Str
package_message body = header_of (length body % 2 ^ 32) ++ body

-- The four shifted bytes occupy different bits, so that `|=` adds them.
unfoldable pub parse_message_header : ℕ → ℕ → ℕ → ℕ → ℕ
parse_message_header h0 h1 h2 h3 = h0 * 2 ^ 24 + h1 * 2 ^ 16 + h2 * 2 ^ 8 + h3

-- send(socket, rest, ..., 0): an error is 0; otherwise the bytes that were accepted.
unfoldable pub send_some : ℕ → Str → M ℕ
send_some socket rest w = elim w.send_results [
  | [] ↦ (length rest, record w { outbox = w.outbox ++ (socket, rest) ∷ [] })
  | zero ∷ later ↦ (0, record w { send_results = later })
  | suc n ∷ later ↦ (
    min (suc n) (length rest),
    record w { outbox = w.outbox ++ (socket, take (suc n) rest) ∷ []; send_results = later },
  )
]

-- `while(totalSent < totalLength)`; the fuel is the number of bytes left, and one more.
unfoldable pub send_loop : ℕ → ℕ → Str → M Bool
unfolding send_some
send_loop zero socket rest = pure false
send_loop (suc fuel) socket [] = pure true
send_loop (suc fuel) socket (c ∷ rest) = do
  sent ← send_some socket (c ∷ rest)
  elim sent [ zero ↦ pure false | suc n ↦ send_loop fuel socket (drop n rest) ]

unfoldable pub send_data : ℕ → Str → M Bool
unfolding package_message
send_data socket body =
    let packaged = package_message body in send_loop (suc (length packaged)) socket packaged

-- What a socket receives: a list of chunks. recv() waits for a chunk, and returns at most as many
-- bytes of it as were asked for; an end of the list is an end of the stream.
abbrev pub Stream : Type 0
Stream = List Str

-- The rest of a chunk stays in the socket.
abbrev pub leftover : Str → Stream → Stream
leftover [] later = later
leftover (b ∷ bytes) later = (b ∷ bytes) ∷ later

unfoldable pub recv : ℕ → Stream → Str × Stream
recv n [] = ([], [])
recv n ([] ∷ later) = ([], later)
recv n ((c ∷ chunk) ∷ later) = (take n (c ∷ chunk), leftover (drop n (c ∷ chunk)) later)

-- The bytes of the header; those that recv() has not written are not initialised.
abbrev pub header_byte : Str → Str → ℕ → ℕ
header_byte (c ∷ got) garbage zero = c
header_byte (c ∷ got) garbage (suc i) = header_byte got (drop 1 garbage) i
header_byte [] [] i = 0
header_byte [] (g ∷ garbage) zero = g
header_byte [] (g ∷ garbage) (suc i) = header_byte [] garbage i

-- The length that the header announces.
abbrev pub header_length : Str → Str → ℕ
header_length got garbage =
    parse_message_header (header_byte got garbage 0) (header_byte got garbage 1)
      (header_byte got garbage 2) (header_byte got garbage 3)

-- `while(totalRead < messageLength)`: the bytes wanted, those read so far, and the fuel.
unfoldable pub recv_loop : ℕ → ℕ → Str → Stream → Str × Stream
recv_loop zero wanted body stream = ([], stream)
recv_loop (suc fuel) zero body stream = (body, stream)
recv_loop (suc fuel) (suc wanted) body stream =
    let (got, later) = recv (suc wanted) stream in
    elim got [
      | [] ↦ ([], later)
      | c ∷ more ↦ recv_loop fuel (wanted - length more) (body ++ c ∷ more) later
    ]

-- ReceiveData: the empty string stands for every failure. `garbage` is what the array `header`
-- holds before recv() writes to it.
unfoldable pub receive_data : Str → Stream → Str × Stream
receive_data garbage stream =
    let (got, later) = recv 4 stream in
    let wanted = header_length got garbage in
    elim got [
      | [] ↦ ([], later)
      | c ∷ more ↦
          if wanted == 0 || ltb 65536 wanted
          then ([], later)
          else recv_loop (suc wanted) wanted [] later
    ]
