-- ===== src/Wire/Sending.antt =====
-- SendData against partial writes: what a peer has received when it returns.
use lite_chat_server.Common.{
  Bool, List, Str, [], ap, arith, drop, false, if◌then◌else◌, inl, inr, is_empty, length,
  length-drop, min, refl, subst, suc, sym, take, take-append-drop, true, zero, ℕ, ◌++◌, ◌<◌, ◌==◌,
  ◌∙◌, ◌∷◌, ◌≡◌, ◌≢◌, ◌⊎◌, nat_eq, str_eq,
}
use lite_chat_server.World.{M, World, pure, ◌>>=◌}
use lite_chat_server.Wire.{package_message, send_data, send_loop, send_some}
use mathlib.Core.List.{append_assoc, append-nil}

-- What one peer has received, in order.
unfoldable pub bytes_to : ℕ → List (ℕ × Str) → Str
bytes_to socket [] = []
bytes_to socket ((s, bytes) ∷ outbox) =
    let rest = bytes_to socket outbox in if s == socket then bytes ++ rest else rest

-- A send of `message` that led from `w` to `w'` with the result `ok`: the peer got all of it but the
-- `lost` last bytes, no other peer got any, and `ok` says whether nothing is lost.
pub record Sent (socket : ℕ) (message : Str) (w w' : World) (ok : Bool) : Type 0 where
  pub sent : Str
  pub lost : Str
  pub split : sent ++ lost ≡ message
  pub delivered : bytes_to socket w'.outbox ≡ bytes_to socket w.outbox ++ sent
  pub told : ok ≡ is_empty lost
  pub others : (t : ℕ) → t ≢ socket → bytes_to t w'.outbox ≡ bytes_to t w.outbox

bytes_to-append_self :
    (socket : ℕ) (outbox : List (ℕ × Str)) (bytes : Str)
    → bytes_to socket (outbox ++ (socket, bytes) ∷ []) ≡ bytes_to socket outbox ++ bytes
unfolding bytes_to
bytes_to-append_self socket [] bytes = ground (arith, append-nil bytes)
bytes_to-append_self socket ((s, b) ∷ outbox) bytes =
    ground (
      arith,
      append_assoc b (bytes_to socket outbox) bytes,
      bytes_to-append_self socket outbox bytes,
    )

bytes_to-append_other :
    (socket t : ℕ) (outbox : List (ℕ × Str)) (bytes : Str)
    → t ≢ socket
    → bytes_to t (outbox ++ (socket, bytes) ∷ []) ≡ bytes_to t outbox
unfolding bytes_to
bytes_to-append_other socket t [] bytes n = ground arith
bytes_to-append_other socket t ((s, b) ∷ outbox) bytes n =
    rw (bytes_to-append_other socket t outbox bytes n) refl

take-all : (xs : Str) → take (length xs) xs ≡ xs
take-all [] = refl
take-all (x ∷ xs) = rw (take-all xs)

min-suc : (n m : ℕ) → min (suc n) (suc m) ≡ suc (min n m)
min-suc n m = omega arith

min-zero_right : (n : ℕ) → min n 0 ≡ 0
min-zero_right n = omega arith

min-zero_left : (n : ℕ) → min 0 n ≡ 0
min-zero_left n = omega arith

take-min : (n : ℕ) (xs : Str) → take (min n (length xs)) xs ≡ take n xs
take-min zero xs = rw (min-zero_left (length xs)) refl
take-min (suc n) [] = ap (λ k. take k []) (min-zero_right (suc n))
take-min (suc n) (x ∷ xs) =
    ap (λ k. take k (x ∷ xs)) (min-suc n (length xs)) ∙ ap (λ r. x ∷ r) (take-min n xs)

-- One call of send() fails, or sends a first part that is not empty.
send_some-splits :
    (socket c : ℕ) (rest : Str) (w : World)
    → (((send_some socket (c ∷ rest) w).0 ≡ 0)
        × ((send_some socket (c ∷ rest) w).1.outbox ≡ w.outbox))
      ⊎ ((k : ℕ) × ((send_some socket (c ∷ rest) w).0 ≡ suc k)
          × ((send_some socket (c ∷ rest) w).1.outbox
              ≡ w.outbox ++ (socket, take (suc k) (c ∷ rest)) ∷ []))
unfolding send_some
send_some-splits socket c rest w = go w.send_results refl
  where
    go :
        (r : List ℕ)
        → w.send_results ≡ r
        → (((send_some socket (c ∷ rest) w).0 ≡ 0)
            × ((send_some socket (c ∷ rest) w).1.outbox ≡ w.outbox))
          ⊎ ((k : ℕ) × ((send_some socket (c ∷ rest) w).0 ≡ suc k)
              × ((send_some socket (c ∷ rest) w).1.outbox
                  ≡ w.outbox ++ (socket, take (suc k) (c ∷ rest)) ∷ []))
    go [] e = rw (send_some, e) (inr (length rest, refl, simp (take-all rest)))
    go (zero ∷ later) e = rw (send_some, e) (inl (refl, refl))
    go (suc n ∷ later) e =
        rw (send_some, e) (inr (min n (length rest), omega arith, simp (take-min n rest)))

nothing-Sent :
    (socket : ℕ) (message : Str) (w w' : World) (ok : Bool)
    → w'.outbox ≡ w.outbox
    → ok ≡ is_empty message
    → Sent socket message w w' ok
nothing-Sent socket message w w' ok same told = record {
  sent = [];
  lost = message;
  split = refl;
  delivered = ap (bytes_to socket) same ∙ sym (append-nil (bytes_to socket w.outbox));
  told = told;
  others = λ t n. ap (bytes_to t) same;
}

-- A first part, then the rest.
part-Sent :
    (socket k : ℕ) (message : Str) (w w' w'' : World) (ok : Bool)
    → w'.outbox ≡ w.outbox ++ (socket, take k message) ∷ []
    → Sent socket (drop k message) w' w'' ok
    → Sent socket message w w'' ok
part-Sent socket k message w w' w'' ok e s = record {
  sent = take k message ++ s.sent;
  lost = s.lost;
  split =
      append_assoc (take k message) s.sent s.lost
      ∙ ap (λ r. take k message ++ r) s.split
      ∙ take-append-drop k message;
  delivered =
      s.delivered
      ∙ ap (λ r. r ++ s.sent)
          (ap (bytes_to socket) e ∙ bytes_to-append_self socket w.outbox (take k message))
      ∙ append_assoc (bytes_to socket w.outbox) (take k message) s.sent;
  told = s.told;
  others = λ t n.
      s.others t n ∙ ap (bytes_to t) e ∙ bytes_to-append_other socket t w.outbox (take k message) n;
}

send_loop-Sent :
    (fuel socket : ℕ) (message : Str) (w : World)
    → length message < fuel
    → Sent socket message w (send_loop fuel socket message w).1 (send_loop fuel socket message w).0
unfolding send_loop ◌>>=◌
send_loop-Sent zero socket message w short = absurd (omega arith)
send_loop-Sent (suc fuel) socket [] w short = nothing-Sent socket [] w w true refl refl
send_loop-Sent (suc fuel) socket (c ∷ rest) w short =
    go (send_some socket (c ∷ rest) w).0 (send_some-splits socket c rest w)
      (λ n. send_loop-Sent fuel socket (drop n rest) w' (omega (arith, length-drop n rest)))
  where
    w' : World
    w' = (send_some socket (c ∷ rest) w).1

    go :
        (n : ℕ)
        → ((n ≡ 0) × (w'.outbox ≡ w.outbox))
          ⊎ ((k : ℕ) × (n ≡ suc k)
              × (w'.outbox ≡ w.outbox ++ (socket, take (suc k) (c ∷ rest)) ∷ []))
        → ((n : ℕ)
            → Sent socket
                (drop n rest)
                w'
                (send_loop fuel socket (drop n rest) w').1
                (send_loop fuel socket (drop n rest) w').0)
        → Sent socket
            (c ∷ rest)
            w
            (elim n as (λ _. M Bool) [
              | zero ↦ pure false
              | suc n ↦ send_loop fuel socket (drop n rest)
            ]
              w').1
            (elim n as (λ _. M Bool) [
              | zero ↦ pure false
              | suc n ↦ send_loop fuel socket (drop n rest)
            ]
              w').0
    go zero (inl (e, same)) again = nothing-Sent socket (c ∷ rest) w w' false same refl
    go zero (inr (k, e, more)) again = absurd (omega (arith, e))
    go (suc n) (inl (e, same)) again = absurd (omega (arith, e))
    go (suc n) (inr (k, e, more)) again =
        part-Sent socket (suc n) (c ∷ rest) w w' _ _
          (subst (λ k. w'.outbox ≡ w.outbox ++ (socket, take k (c ∷ rest)) ∷ []) (sym e) more)
          (again n)

-- Whatever parts of the packaged message the calls of send() take, the peer of the socket receives
-- a first part of it, in order and once, no other peer receives a byte, and SendData returns true
-- exactly if the peer received the whole.
pub send_data-delivers :
    (socket : ℕ) (body : Str) (w : World)
    → Sent socket (package_message body) w (send_data socket body w).1 (send_data socket body w).0
unfolding send_data
send_data-delivers socket body w =
    send_loop-Sent (suc (length (package_message body))) socket (package_message body) w
      (omega arith)
