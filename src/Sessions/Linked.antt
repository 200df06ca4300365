-- ===== src/Sessions/Linked.antt =====
-- When the two tables of the session manager agree, and what a reader of them may conclude.
use lite_chat_server.Common.{
  Bool-cases, Option-cases, Str, [], ap, arith, inl, inr, lookup, lookup-modify, modify, modify_inv,
  none, refl, some, sym, ℕ, ◌==◌, ◌∙◌, ◌≡◌, ◌≢◌, nat_eq, str_eq,
}
use lite_chat_server.Sessions.{
  ClientSession, SessionManager, get_session_by_username, no_sessions, write_session,
}

-- Whoever is found by a name bears it.
pub record IsSound (m : SessionManager) : Type 0 where
  -- A session is stored under its own socket.
  pub own : (s : ℕ) (c : ClientSession) → lookup s m.cli_session_map ≡ some c → c.socket ≡ s
  -- A name in the table is that of the session it leads to.
  pub named :
      (u : Str) (s : ℕ)
      → lookup u m.username_to_socket ≡ some s
      → (c : ClientSession) × (lookup s m.cli_session_map ≡ some c) × (c.username ≡ u)
  pub no_empty : lookup [] m.username_to_socket ≡ none

-- And whoever bears a name is found by it.
pub record IsLinked (m : SessionManager) : Type 0 where
  pub sound : IsSound m
  pub open sound use *
  pub found :
      (s : ℕ) (c : ClientSession)
      → lookup s m.cli_session_map ≡ some c
      → c.username ≢ []
      → lookup c.username m.username_to_socket ≡ some s

pub no_sessions-IsLinked : IsLinked no_sessions
unfolding lookup
no_sessions-IsLinked = record {
  sound = record { own = λ s c h. cc; named = λ u s h. cc; no_empty = refl };
  found = λ s c h. cc;
}

pub get_session_by_username-named :
    (m : SessionManager) (u : Str) (c : ClientSession)
    → IsSound m
    → get_session_by_username u m ≡ some c
    → (c.username ≡ u)
      × (lookup c.socket m.cli_session_map ≡ some c)
      × (lookup u m.username_to_socket ≡ some c.socket)
unfolding get_session_by_username
get_session_by_username-named m u c l h = elim (Option-cases (lookup u m.username_to_socket)) [
  | inl e ↦ absurd (ground arith)
  | inr (s, e) ↦ at s e (l.named u s e) (ground arith)
]
  where
    at :
        (s : ℕ)
        → lookup u m.username_to_socket ≡ some s
        → (d : ClientSession) × (lookup s m.cli_session_map ≡ some d) × (d.username ≡ u)
        → lookup s m.cli_session_map ≡ some c
        → (c.username ≡ u)
          × (lookup c.socket m.cli_session_map ≡ some c)
          × (lookup u m.username_to_socket ≡ some c.socket)
    at s e (d, p, q) r = (cc, simp (l.own s c r) r, simp (l.own s c r) e)

-- A socket is bound to at most one name.
pub bound_name_unique :
    (m : SessionManager) (u v : Str) (s : ℕ)
    → IsSound m
    → lookup u m.username_to_socket ≡ some s
    → lookup v m.username_to_socket ≡ some s
    → u ≡ v
bound_name_unique m u v s l hu hv = same (l.named u s hu) (l.named v s hv)
  where
    same :
        (c : ClientSession) × (lookup s m.cli_session_map ≡ some c) × (c.username ≡ u)
        → (c : ClientSession) × (lookup s m.cli_session_map ≡ some c) × (c.username ≡ v)
        → u ≡ v
    same (c, e, p) (d, f, q) = cc (sym e ∙ f)

-- In agreeing tables no two sessions bear one name.
pub username_unique :
    (m : SessionManager) (s t : ℕ) (c d : ClientSession)
    → IsLinked m
    → lookup s m.cli_session_map ≡ some c
    → lookup t m.cli_session_map ≡ some d
    → c.username ≡ d.username
    → c.username ≢ []
    → s ≡ t
username_unique m s t c d l hs ht e n =
    ground (arith, l.found s c hs n, l.found t d ht (λ z. n (e ∙ z)))

-- A write that leaves socket and name alone.
module _ (m : SessionManager) (t : ℕ) (f : ClientSession → ClientSession)
    (same : (c : ClientSession) → ((f c).socket ≡ c.socket) × ((f c).username ≡ c.username)) where
  stays :
      (u : Str) (s : ℕ)
      → (c : ClientSession) × (lookup s m.cli_session_map ≡ some c) × (c.username ≡ u)
      → (c : ClientSession) × (lookup s (modify t f m.cli_session_map) ≡ some c) × (c.username ≡ u)
  stays u s (c, e, q) = elim (Bool-cases (t == s)) [
    | inl hit ↦ (f c, ground (arith, lookup-modify t s f m.cli_session_map), (same c).1 ∙ q)
    | inr miss ↦ (c, ground (arith, lookup-modify t s f m.cli_session_map), q)
  ]

  pub write_session-IsSound : IsSound m → IsSound (write_session t f m)
  unfolding write_session
  write_session-IsSound l = record {
    own = λ s c h. elim (modify_inv t s f m.cli_session_map c h) [
      | inl (_, (d, e, q)) ↦ ap (λ (x : ClientSession). x.socket) q ∙ (same d).0 ∙ l.own s d e
      | inr (_, e) ↦ l.own s c e
    ];
    named = λ u s h. stays u s (l.named u s h);
    no_empty = l.no_empty;
  }

  pub write_session-IsLinked : IsLinked m → IsLinked (write_session t f m)
  unfolding write_session
  write_session-IsLinked l = record {
    sound = write_session-IsSound l.sound;
    found = λ s c h n. elim (modify_inv t s f m.cli_session_map c h) [
      | inl (_, (d, e, q)) ↦
          let k : c.username ≡ d.username = ap (λ (x : ClientSession). x.username) q ∙ (same d).1 in
          rw k (l.found s d e (λ z. n (k ∙ z)))
      | inr (_, e) ↦ l.found s c e n
    ];
  }
