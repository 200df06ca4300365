-- ===== src/Server/Identity.antt =====
-- In whose name a request is served: the first lines of DispatchRequest behind the parsing.
use lite_chat_server.Common.{Option, some, Str, [], ap, arith, false, is_empty, refl, ℕ, ◌∙◌, ◌≡◌}
use lite_chat_server.Host.{Host}
use lite_chat_server.World.{M, World, gets, pure, ◌>>=◌, ◌>>◌}
use lite_chat_server.Protocol.{Request}
use lite_chat_server.Wire.{send_data}
use lite_chat_server.Server.Parsing.{claim_session}
use lite_chat_server.Server.Dispatch.{answer, kind_of, response_json, serve_request, session_name}

-- The request, sent by a client that says it is `username`.
abbrev pub claiming : Str → Request → Request
claiming username request = record request { username = username }

claim_session-own :
    (name : Str) (request : Request)
    → is_empty name ≡ false
    → is_empty request.target_username ≡ false
    → claim_session name request ≡ claiming name request
unfolding claim_session
claim_session-own name request named target = ground (arith, named, target)

-- Without a session name the claim stands, as if it were the name of the session.
claim_session-anonymous :
    (u v : Str) (request : Request)
    → is_empty u ≡ false
    → is_empty request.target_username ≡ false
    → claim_session [] (claiming u request) ≡ claim_session u (claiming v request)
unfolding claim_session
claim_session-anonymous u v request named target = ground (arith, named, target)

module _ ⦃host : Host⦄ where
  -- DispatchRequest behind the choice of the name.
  unfoldable pub served : ℕ → Str → Request → M (Option (Unit {0}))
  served socket type request = do
    response ← answer (kind_of type) request
    send_data socket (host.write_json (response_json type response))
    pure (some tt)

  serve_request-served :
      (socket : ℕ) (request : Request) (w : World)
      → serve_request socket request w
        ≡ served socket request.type (claim_session (session_name socket w) request) w
  unfolding serve_request served ◌>>=◌ gets
  serve_request-served socket request w = refl

  -- A request of a client that has logged in, if it names its target, is served in the name of the
  -- session, whatever name the client claims; the target and all else of the request stay.
  pub serve_request-own :
      (socket : ℕ) (request : Request) (w : World)
      → is_empty (session_name socket w) ≡ false
      → is_empty request.target_username ≡ false
      → serve_request socket request w
        ≡ served socket request.type (claiming (session_name socket w) request) w
  serve_request-own socket request w named target =
      serve_request-served socket request w
      ∙ ap (λ r. served socket request.type r w)
          (claim_session-own (session_name socket w) request named target)

  -- A client that has not logged in acts for whom it claims to be: a request that names its target is
  -- served as one in a session of that user would be, without any password.
  pub serve_request-anonymous :
      (socket : ℕ) (u v : Str) (request : Request) (w : World)
      → session_name socket w ≡ []
      → is_empty u ≡ false
      → is_empty request.target_username ≡ false
      → serve_request socket (claiming u request) w
        ≡ served socket request.type (claim_session u (claiming v request)) w
  serve_request-anonymous socket u v request w nobody named target =
      serve_request-served socket (claiming u request) w
      ∙ ap (λ r. served socket request.type r w)
          (ap (λ name. claim_session name (claiming u request)) nobody
            ∙ claim_session-anonymous u v request named target)
