-- ===== src/Server/Termination.antt =====
-- The loop of HandleClient ends with its stream.
use lite_chat_server.Common.{
  Bool, Option, Str, [], arith, false, length, length-append, none, refl, some, subst, suc, true,
  zero, ℕ, ◌<◌, ◌∷◌, ◌≡◌, ◌≢◌,
}
use lite_chat_server.Host.{Host}
use lite_chat_server.World.{M, World, or_else, pure, ◌>>=◌}
use lite_chat_server.Wire.{Stream, receive_data}
use lite_chat_server.Wire.Receiving.{Received, flat, receive_data-Received}
use lite_chat_server.Server.Connections.{
  Ending, client_loop, failed, handle_client, left, out_of_fuel, stopped, stream_size,
}
use lite_chat_server.Server.Dispatch.{dispatch_request}

stream_size-flat : (stream : Stream) → stream_size stream ≡ length (flat stream)
stream_size-flat [] = refl
stream_size-flat (chunk ∷ later) =
    omega (arith, stream_size-flat later, length-append chunk (flat later))

-- The ways in which a run of the loop ends when it has fuel enough.
Ended : Ending → Type 0
Ended out_of_fuel = ⊥
Ended ending = Unit

module _ ⦃host : Host⦄ where
  client_loop-Ended :
      (fuel : ℕ) (garbage : ℕ → Str) (socket : ℕ) (stream : Stream) (w : World)
      → length (flat stream) < fuel
      → Ended (client_loop fuel garbage socket stream w).0
  unfolding client_loop ◌>>=◌ Ended
  client_loop-Ended zero garbage socket stream w short = absurd (omega (arith, short))
  client_loop-Ended (suc fuel) garbage socket stream w short =
      go w.running (receive_data (garbage fuel) stream).0
        (receive_data-Received (garbage fuel) stream)
        (λ v short'.
          client_loop-Ended fuel garbage socket (receive_data (garbage fuel) stream).1 v short')
    where
      later : Stream
      later = (receive_data (garbage fuel) stream).1

      served :
          (text : Str) (r : Option (Unit {0}) × World)
          → ((v : World) → Ended (client_loop fuel garbage socket later v).0)
          → Ended (or_else r.0 (pure failed) (λ _. client_loop fuel garbage socket later) r.1).0
      served text (none, v) again = tt
      served text (some done, v) again = again v

      go :
          (running : Bool) (text : Str)
          → Received stream (text, later)
          → ((v : World)
              → length (flat later) < fuel
              → Ended (client_loop fuel garbage socket later v).0)
          → Ended
              (elim running as (λ _. M Ending) [
                | false ↦ pure stopped
                | true ↦ elim text as (λ _. M Ending) [
                  | [] ↦ pure left
                  | c ∷ body ↦ (do
                    done ← dispatch_request socket (c ∷ body)
                    or_else done (pure failed) (λ _. client_loop fuel garbage socket later))
                ]
              ]
                w).0
      go false text r again = tt
      go true [] r again = tt
      go true (c ∷ body) r again =
          served (c ∷ body) (dispatch_request socket (c ∷ body) w)
            (λ v. again v (omega (arith, r.taken (λ e. cc), short)))

  -- HandleClient returns: on every stream, whatever is sent and however the requests are answered,
  -- the fuel of the loop, one more than the bytes of the stream, is enough.
  pub handle_client-ends :
      (garbage : ℕ → Str) (socket : ℕ) (stream : Stream) (w : World)
      → (handle_client garbage socket stream w).0 ≢ out_of_fuel
  unfolding handle_client ◌>>=◌ Ended
  handle_client-ends garbage socket stream w e = subst Ended e (
      client_loop-Ended (suc (stream_size stream)) garbage socket stream w
        (omega (arith, stream_size-flat stream)))
