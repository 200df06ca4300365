-- ===== src/Sessions/Removal.antt =====
-- AddSession and RemoveSession keep the two tables of the session manager in agreement.
use lite_chat_server.Common.{
  Option-cases, Str, Str-cases, [], ap, arith, erase, inl, inr, insert, lookup, lookup-erase,
  lookup-erase_ne, lookup-erase_self, lookup-insert, none, some, str_beq_iff, sym, ℕ, ◌∙◌, ◌≡◌, ◌≢◌,
  nat_eq, str_eq,
}
use lite_chat_server.Sessions.{ClientSession, SessionManager, add_session, remove_session, unbind}
use lite_chat_server.Sessions.Linked.{IsLinked, IsSound}

module _ (m : SessionManager) (socket : ℕ) (c : ClientSession) where
  -- A new connection, on a socket that no session holds, has no name yet.
  module _ (fresh : lookup socket m.cli_session_map ≡ none) (own : c.socket ≡ socket)
      (unnamed : c.username ≡ []) where
    pub add_session-IsSound : IsSound m → IsSound (add_session socket c m)
    unfolding add_session
    add_session-IsSound l = record {
      own = λ s d h. ground (arith, lookup-insert socket s c m.cli_session_map, l.own s d);
      named = λ u s h. kept u s (l.named u s (ground arith));
      no_empty = ground (arith, l.no_empty);
    }
      where
        kept :
            (u : Str) (s : ℕ)
            → (d : ClientSession) × (lookup s m.cli_session_map ≡ some d) × (d.username ≡ u)
            → (d : ClientSession) × (lookup s (insert socket c m.cli_session_map) ≡ some d)
              × (d.username ≡ u)
        kept u s (d, e, q) = (d, ground (arith, lookup-insert socket s c m.cli_session_map), q)

    pub add_session-IsLinked : IsLinked m → IsLinked (add_session socket c m)
    unfolding add_session
    add_session-IsLinked l = record {
      sound = add_session-IsSound l.sound;
      found = λ s d h n. ground (arith, lookup-insert socket s c m.cli_session_map, l.found s d);
    }

  module _ (l : IsSound m) (at : lookup socket m.cli_session_map ≡ some c) where
    unbind_sub :
        (u : Str) (s : ℕ)
        → lookup u (unbind c.username socket m.username_to_socket) ≡ some s
        → lookup u m.username_to_socket ≡ some s
    unfolding unbind
    unbind_sub u s h = ground (arith, lookup-erase c.username u m.username_to_socket)

    -- The name that leads to the socket is that of its session.
    bound_name : (u : Str) → lookup u m.username_to_socket ≡ some socket → c.username ≡ u
    bound_name u h = same (l.named u socket h)
      where
        same :
            (d : ClientSession) × (lookup socket m.cli_session_map ≡ some d) × (d.username ≡ u)
            → c.username ≡ u
        same (d, e, q) = cc (sym at ∙ e)

    unbound :
        lookup c.username m.username_to_socket ≡ some socket
        → lookup c.username (unbind c.username socket m.username_to_socket) ≡ none
    unfolding unbind
    unbound h = elim (Str-cases c.username) [
      | inl e ↦ absurd (ground (arith, l.no_empty))
      | inr n ↦ ground (arith, lookup-erase_self c.username m.username_to_socket)
    ]

    -- No name leads to the socket that went.
    unbind_inv :
        (u : Str) (s : ℕ)
        → lookup u (unbind c.username socket m.username_to_socket) ≡ some s
        → (lookup u m.username_to_socket ≡ some s) × (socket ≢ s)
    unbind_inv u s h = (
      unbind_sub u s h,
      λ q.
          let e : lookup u m.username_to_socket ≡ some socket =
            unbind_sub u s h ∙ ap some (sym q) in
          ground (
            arith,
            bound_name u e,
            unbound (ap (λ v. lookup v m.username_to_socket) (bound_name u e) ∙ e),
          ),
    )

    -- A name that leads elsewhere stays.
    unbind_keeps :
        (u : Str) (s : ℕ)
        → lookup u m.username_to_socket ≡ some s
        → socket ≢ s
        → lookup u (unbind c.username socket m.username_to_socket) ≡ some s
    unfolding unbind
    unbind_keeps u s h n =
        ground (arith, lookup-erase c.username u m.username_to_socket, str_beq_iff c.username u)

    lost-IsSound : IsSound (remove_session socket m)
    unfolding remove_session
    lost-IsSound =
        rw (at, remove_session)
          (record {
            own = λ s d h. ground (arith, lookup-erase socket s m.cli_session_map, l.own s d);
            named = λ u s h. kept u s (unbind_inv u s h);
            no_empty =
                elim (Option-cases (lookup [] (unbind c.username socket m.username_to_socket))) [
                  | inl e ↦ e
                  | inr (s, e) ↦ ground (arith, unbind_inv [] s e, l.no_empty)
                ];
          })
      where
        moved :
            (u : Str) (s : ℕ)
            → socket ≢ s
            → (d : ClientSession) × (lookup s m.cli_session_map ≡ some d) × (d.username ≡ u)
            → (d : ClientSession) × (lookup s (erase socket m.cli_session_map) ≡ some d)
              × (d.username ≡ u)
        moved u s n (d, e, q) = (d, lookup-erase_ne socket s m.cli_session_map n ∙ e, q)

        kept :
            (u : Str) (s : ℕ)
            → (lookup u m.username_to_socket ≡ some s) × (socket ≢ s)
            → (d : ClientSession) × (lookup s (erase socket m.cli_session_map) ≡ some d)
              × (d.username ≡ u)
        kept u s (e, n) = moved u s n (l.named u s e)

module _ (m : SessionManager) (socket : ℕ) where
  pub remove_session-IsSound : IsSound m → IsSound (remove_session socket m)
  unfolding remove_session
  remove_session-IsSound l = elim (Option-cases (lookup socket m.cli_session_map)) [
    | inl e ↦ rw (e, remove_session) l
    | inr (c, e) ↦ lost-IsSound m socket c l e
  ]

  pub remove_session-IsLinked : IsLinked m → IsLinked (remove_session socket m)
  unfolding remove_session
  remove_session-IsLinked l = elim (Option-cases (lookup socket m.cli_session_map)) [
    | inl e ↦ rw (e, remove_session) l
    | inr (c, e) ↦ record {
      sound = remove_session-IsSound l.sound;
      found =
          rw (e, remove_session)
            (λ s d h n.
              unbind_keeps m socket c l.sound e d.username s
                (l.found s d (ground (arith, lookup-erase socket s m.cli_session_map)) n)
                (λ q. ground (arith, lookup-erase_self socket m.cli_session_map)));
    }
  ]
