-- ===== src/Wire/Receiving.antt =====
-- ReceiveData against arbitrary streams.
use lite_chat_server.Common.{
  All, Bool, Str, [], ap, arith, drop, false, if◌then◌else◌, inl, inr, length, length-append,
  length-take, ltb, refl, suc, sym, take, take-append-drop, true, zero, ℕ, ◌++◌, ◌+◌, ◌-◌, ◌<◌,
  ◌==◌, ◌||◌, ◌∙◌, ◌∷◌, ◌≡◌, ◌≢◌, ◌≤◌, ◌⊎◌, nat_eq, str_eq,
}
use lite_chat_server.Wire.{Stream, header_length, leftover, receive_data, recv, recv_loop}
use mathlib.Core.List.{append_assoc}

-- All bytes of a stream.
abbrev pub flat : Stream → Str
flat [] = []
flat (chunk ∷ later) = chunk ++ flat later

-- No chunk is empty: recv() returns 0 at the end only.
abbrev pub Solid : Stream → Type 0
Solid = All (λ chunk. chunk ≢ [])

-- Two ways to cut a string: the longer first part begins with the shorter.
pub append-split :
    (xs ys zs ws : Str)
    → xs ++ ys ≡ zs ++ ws
    → length xs ≤ length zs
    → (t : Str) × (zs ≡ xs ++ t) × (ys ≡ t ++ ws)
append-split [] ys zs ws e le = (zs, refl, e)
append-split (x ∷ xs) ys [] ws e le = absurd (omega (arith, le))
append-split (x ∷ xs) ys (z ∷ zs) ws e le =
    let (t, p, q) = append-split xs ys zs ws (cc e) (omega (arith, le)) in (t, cc, q)

pub flat-leftover : (rest : Str) (later : Stream) → flat (leftover rest later) ≡ rest ++ flat later
flat-leftover [] later = refl
flat-leftover (b ∷ rest) later = refl

pub recv-flat :
    (n : ℕ) (stream : Stream) → (recv n stream).0 ++ flat (recv n stream).1 ≡ flat stream
unfolding recv
recv-flat n [] = refl
recv-flat n ([] ∷ later) = refl
recv-flat n ((c ∷ chunk) ∷ later) =
    ap (λ r. take n (c ∷ chunk) ++ r) (flat-leftover (drop n (c ∷ chunk)) later)
    ∙ sym (append_assoc (take n (c ∷ chunk)) (drop n (c ∷ chunk)) (flat later))
    ∙ ap (λ r. r ++ flat later) (take-append-drop n (c ∷ chunk))

pub recv-length : (n : ℕ) (stream : Stream) → length (recv n stream).0 ≤ n
unfolding recv
recv-length n [] = omega arith
recv-length n ([] ∷ later) = omega arith
recv-length n ((c ∷ chunk) ∷ later) = omega (arith, length-take n (c ∷ chunk))

pub recv-Solid : (n : ℕ) (stream : Stream) → Solid stream → Solid (recv n stream).1
unfolding recv
recv-Solid n [] s = tt
recv-Solid n ([] ∷ later) s = s.1
recv-Solid n ((c ∷ chunk) ∷ later) s = go (drop n (c ∷ chunk))
  where
    go : (rest : Str) → Solid (leftover rest later)
    go [] = s.1
    go (b ∷ rest) = (λ e. cc, s.1)

-- An empty read of a solid stream is the end of it.
pub recv-end :
    (n : ℕ) (stream : Stream) → Solid stream → (recv (suc n) stream).0 ≡ [] → flat stream ≡ []
unfolding recv
recv-end n [] s e = refl
recv-end n ([] ∷ later) s e = absurd (s.0 refl)
recv-end n ((c ∷ chunk) ∷ later) s e = cc

-- What the loop has read: nothing, or the bytes it was asked for.
pub record Got (wanted : ℕ) (acc : Str) (stream : Stream) (r : Str × Stream) : Type 0 where
  pub bytes : r.0 ++ flat r.1 ≡ acc ++ flat stream
  pub enough : length r.0 ≡ length acc + wanted

pub next-Got :
    (wanted c : ℕ) (acc more : Str) (stream later : Stream) (r : Str × Stream)
    → (c ∷ more) ++ flat later ≡ flat stream
    → length more ≤ wanted
    → Got (wanted - length more) (acc ++ c ∷ more) later r
    → Got (suc wanted) acc stream r
next-Got wanted c acc more stream later r e le g = record {
  bytes = g.bytes ∙ append_assoc acc (c ∷ more) (flat later) ∙ ap (λ x. acc ++ x) e;
  enough = omega (arith, le, g.enough, length-append acc (c ∷ more));
}

record Read (wanted : ℕ) (acc : Str) (stream : Stream) (r : Str × Stream) : Type 0 where
  outcome : (r.0 ≡ []) ⊎ Got wanted acc stream r
  shrinks : length (flat r.1) ≤ length (flat stream)

recv_loop-Read :
    (fuel wanted : ℕ) (acc : Str) (stream : Stream)
    → Read wanted acc stream (recv_loop fuel wanted acc stream)
unfolding recv_loop
recv_loop-Read zero wanted acc stream = record { outcome = inl refl; shrinks = omega arith }
recv_loop-Read (suc fuel) zero acc stream = record {
  outcome = inr (record { bytes = refl; enough = omega arith });
  shrinks = omega arith;
}
recv_loop-Read (suc fuel) (suc wanted) acc stream =
    go (recv (suc wanted) stream).0 (recv-flat (suc wanted) stream)
      (recv-length (suc wanted) stream)
      (λ c more.
        recv_loop-Read fuel (wanted - length more) (acc ++ c ∷ more) (recv (suc wanted) stream).1)
  where
    later : Stream
    later = (recv (suc wanted) stream).1

    go :
        (got : Str)
        → got ++ flat later ≡ flat stream
        → length got ≤ suc wanted
        → ((c : ℕ) (more : Str)
            → Read
                (wanted - length more)
                (acc ++ c ∷ more)
                later
                (recv_loop fuel (wanted - length more) (acc ++ c ∷ more) later))
        → Read (suc wanted) acc stream (elim got as (λ _. Str × Stream) [
          | [] ↦ ([], later)
          | c ∷ more ↦ recv_loop fuel (wanted - length more) (acc ++ c ∷ more) later
        ])
    go [] e le again = record { outcome = inl refl; shrinks = omega (arith, ap length e) }
    go (c ∷ more) e le again = record {
      outcome = elim (again c more).outcome [
        | inl nothing ↦ inl nothing
        | inr g ↦ inr (next-Got wanted c acc more stream later _ e (omega (arith, le)) g)
      ];
      shrinks =
          omega (arith, (again c more).shrinks, ap length e, length-append (c ∷ more) (flat later));
    }

-- What ReceiveData takes off a stream.
pub record Received (stream : Stream) (r : Str × Stream) : Type 0 where
  pub bounded : length r.0 ≤ 65536
  pub shrinks : length (flat r.1) ≤ length (flat stream)
  -- The text of a message and at least a byte of its header are gone.
  pub taken : r.0 ≢ [] → length (flat r.1) + length r.0 < length (flat stream)

nothing-Received :
    (got : Str) (stream later : Stream)
    → got ++ flat later ≡ flat stream
    → Received stream ([], later)
nothing-Received got stream later e = record {
  bounded = omega arith;
  shrinks = omega (arith, ap length e, length-append got (flat later));
  taken = λ n. absurd (n refl);
}

-- Behind a header of at least one byte the loop reads the body.
body-Received :
    (c wanted : ℕ) (more : Str) (stream later : Stream) (r : Str × Stream)
    → (c ∷ more) ++ flat later ≡ flat stream
    → wanted ≤ 65536
    → Read wanted [] later r
    → Received stream r
body-Received c wanted more stream later r e small read = elim read.outcome [
  | inl nothing ↦ record {
    bounded = omega (arith, small, ap length nothing);
    shrinks = omega (arith, all, read.shrinks);
    taken = λ n. absurd (n nothing);
  }
  | inr g ↦ record {
    bounded = omega (arith, small, g.enough);
    shrinks = omega (arith, all, read.shrinks);
    taken = λ n. omega (arith, all, ap length g.bytes, length-append r.0 (flat r.1));
  }
]
  where
    all : suc (length more) + length (flat later) ≡ length (flat stream)
    all = omega (arith, ap length e, length-append (c ∷ more) (flat later))

-- On every stream, however it is cut, also in the middle of a header, and whatever the header says,
-- ReceiveData returns at most 65536 bytes; if it returns any, it takes from the stream at least
-- those bytes and one more.
pub receive_data-Received :
    (garbage : Str) (stream : Stream) → Received stream (receive_data garbage stream)
unfolding receive_data
receive_data-Received garbage stream =
    go (recv 4 stream).0 (header_length (recv 4 stream).0 garbage) (recv-flat 4 stream)
  where
    later : Stream
    later = (recv 4 stream).1

    body :
        (c : ℕ) (more : Str) (wanted : ℕ) (bad : Bool)
        → (wanted == 0 || ltb 65536 wanted) ≡ bad
        → (c ∷ more) ++ flat later ≡ flat stream
        → Received stream (if bad then ([], later) else recv_loop (suc wanted) wanted [] later)
    body c more wanted true b e = nothing-Received (c ∷ more) stream later e
    body c more wanted false b e =
        body-Received c wanted more stream later _ e (ground arith)
          (recv_loop-Read (suc wanted) wanted [] later)

    go :
        (got : Str) (wanted : ℕ)
        → got ++ flat later ≡ flat stream
        → Received stream (elim got as (λ _. Str × Stream) [
          | [] ↦ ([], later)
          | c ∷ more ↦
              if wanted == 0 || ltb 65536 wanted
              then ([], later)
              else recv_loop (suc wanted) wanted [] later
        ])
    go [] wanted e = nothing-Received [] stream later e
    go (c ∷ more) wanted e = body c more wanted (wanted == 0 || ltb 65536 wanted) refl e
