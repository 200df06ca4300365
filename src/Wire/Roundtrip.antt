-- ===== src/Wire/Roundtrip.antt =====
-- ParseMessageHeader against PackageMessage, and ReceiveData against the messages of PackageMessage.
use lite_chat_server.Common.{
  Bool, Str, [], ap, arith, false, false≢true, if◌then◌else◌, length, length-append, ltb, refl, suc,
  sym, true, zero, ℕ, ◌%◌, ◌++◌, ◌-◌, ◌/◌, ◌<◌, ◌==◌, ◌^◌, ◌||◌, ◌∙◌, ◌∷◌, ◌≡◌, ◌≢◌, ◌≤◌, nat_eq,
  str_eq,
}
use lite_chat_server.Wire.{
  Stream, header_length, header_of, leftover, parse_message_header, receive_data, recv, recv_loop,
}
use lite_chat_server.Wire.Receiving.{
  Got, Solid, append-split, flat, flat-leftover, next-Got, recv-Solid, recv-end, recv-flat,
  recv-length,
}
use mathlib.Core.List.{append-nil}

-- Of every length that a uint32_t holds, the four bytes of the header give back the length.
pub parse_message_header-header_of :
    (n : ℕ)
    → n < 2 ^ 32
    → parse_message_header (n / 2 ^ 24 % 256) (n / 2 ^ 16 % 256) (n / 2 ^ 8 % 256) (n % 256) ≡ n
unfolding parse_message_header
parse_message_header-header_of n small = omega arith

-- On a solid stream that holds them, the loop reads the bytes it was asked for.
recv_loop_complete :
    (fuel wanted : ℕ) (acc : Str) (stream : Stream)
    → wanted < fuel
    → Solid stream
    → wanted ≤ length (flat stream)
    → Got wanted acc stream (recv_loop fuel wanted acc stream)
      × Solid (recv_loop fuel wanted acc stream).1
unfolding recv_loop
recv_loop_complete zero wanted acc stream lt s le = absurd (omega (arith, lt))
recv_loop_complete (suc fuel) zero acc stream lt s le =
    (record { bytes = refl; enough = omega arith }, s)
recv_loop_complete (suc fuel) (suc wanted) acc stream lt s le =
    go (recv (suc wanted) stream).0 refl (recv-flat (suc wanted) stream)
      (recv-length (suc wanted) stream)
      (λ c more.
        recv_loop_complete fuel (wanted - length more) (acc ++ c ∷ more) later (omega (arith, lt))
          (recv-Solid (suc wanted) stream s))
  where
    later : Stream
    later = (recv (suc wanted) stream).1

    go :
        (got : Str)
        → (recv (suc wanted) stream).0 ≡ got
        → got ++ flat later ≡ flat stream
        → length got ≤ suc wanted
        → ((c : ℕ) (more : Str)
            → wanted - length more ≤ length (flat later)
            → Got
                (wanted - length more)
                (acc ++ c ∷ more)
                later
                (recv_loop fuel (wanted - length more) (acc ++ c ∷ more) later)
              × Solid (recv_loop fuel (wanted - length more) (acc ++ c ∷ more) later).1)
        → Got (suc wanted) acc stream (elim got as (λ _. Str × Stream) [
          | [] ↦ ([], later)
          | c ∷ more ↦ recv_loop fuel (wanted - length more) (acc ++ c ∷ more) later
        ])
          × Solid
              (elim got as (λ _. Str × Stream) [
                | [] ↦ ([], later)
                | c ∷ more ↦ recv_loop fuel (wanted - length more) (acc ++ c ∷ more) later
              ]).1
    go [] end e short again = absurd (omega (arith, le, ap length (recv-end wanted stream s end)))
    go (c ∷ more) end e short again =
        let (g, s') =
          again c more (omega (arith, le, ap length e, length-append (c ∷ more) (flat later))) in
        (next-Got wanted c acc more stream later _ e (omega (arith, short)) g, s')

leftover-Solid : (rest : Str) (later : Stream) → Solid later → Solid (leftover rest later)
leftover-Solid [] later s = s
leftover-Solid (b ∷ rest) later s = ((λ e. cc), s)

header_length-package :
    (n : ℕ) (garbage : Str) → n ≤ 65536 → header_length (header_of (n % 2 ^ 32)) garbage ≡ n
unfolding parse_message_header
header_length-package n garbage small = omega arith

-- The first bytes of a stream, read up to a given length.
first_bytes :
    (body after got left : Str)
    → got ++ left ≡ body ++ after
    → length got ≡ length body
    → (got ≡ body) × (left ≡ after)
first_bytes body after got left e same =
    let (t, p, q) = append-split got left body after e (omega (arith, same)) in
    go t p q (omega (arith, same, ap length p, length-append got t))
  where
    go :
        (t : Str)
        → body ≡ got ++ t
        → left ≡ t ++ after
        → length t ≡ 0
        → (got ≡ body) × (left ≡ after)
    go [] p q z = (sym (p ∙ append-nil got), q)
    go (x ∷ t) p q z = absurd (omega (arith, z))

-- A message of 1 to 65536 bytes whose packaged form comes in whatever chunks, none of them empty and
-- the header not cut, is received as it was, and what follows it stays in the socket.
pub receive_data-package_message :
    (garbage body first after : Str) (later : Stream)
    → body ≢ []
    → length body ≤ 65536
    → Solid later
    → first ++ flat later ≡ body ++ after
    → let r = receive_data garbage ((header_of (length body % 2 ^ 32) ++ first) ∷ later) in
      (r.0 ≡ body) × (flat r.1 ≡ after) × Solid r.1
unfolding receive_data recv
receive_data-package_message garbage body first after later full small s e =
    rw (header_length-package (length body) garbage small)
      (go (length body == 0 || ltb 65536 (length body)) (proper body full small))
  where
    stream : Stream
    stream = leftover first later

    proper : (b : Str) → b ≢ [] → length b ≤ 65536 → (length b == 0 || ltb 65536 (length b)) ≡ false
    proper [] full small = absurd (full refl)
    proper (x ∷ b) full small = ground arith

    whole : flat stream ≡ body ++ after
    whole = flat-leftover first later ∙ e

    go :
        (bad : Bool)
        → bad ≡ false
        → let r =
            if bad then ([], stream) else recv_loop (suc (length body)) (length body) [] stream in
          (r.0 ≡ body) × (flat r.1 ≡ after) × Solid r.1
    go true b = absurd (false≢true (sym b))
    go false b =
        let (g, s') =
          recv_loop_complete (suc (length body)) (length body) [] stream (omega arith)
            (leftover-Solid first later s)
            (omega (arith, ap length whole, length-append body after)) in
        let (p, q) = first_bytes body after _ _ (g.bytes ∙ whole) (omega (arith, g.enough)) in
        (p, q, s')
