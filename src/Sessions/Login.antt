-- ===== src/Sessions/Login.antt =====
-- The steps of a login on the session tables: the old session loses the name, the new one takes it.
use lite_chat_server.Common.{
  Str, [], ap, arith, inl, inr, insert, insert_inv, lookup, lookup-insert_ne, lookup-insert_self,
  lookup-modify_ne, lookup-modify_self, modify, modify_inv, none, refl, some, sym, ℕ, ◌∙◌, ◌≡◌, ◌≢◌,
  ◌⊎◌, nat_eq, str_eq,
}
use lite_chat_server.Sessions.{
  ClientSession, SessionManager, bind_username, set_username, write_session,
}
use lite_chat_server.Sessions.Linked.{IsLinked, IsSound, bound_name_unique}

-- Sound but for the name `u`.
pub record IsSoundBut (u : Str) (m : SessionManager) : Type 0 where
  pub own : (s : ℕ) (c : ClientSession) → lookup s m.cli_session_map ≡ some c → c.socket ≡ s
  pub named :
      (v : Str) (s : ℕ)
      → v ≢ u
      → lookup v m.username_to_socket ≡ some s
      → (c : ClientSession) × (lookup s m.cli_session_map ≡ some c) × (c.username ≡ v)
  pub no_empty : lookup [] m.username_to_socket ≡ none

-- Linked but for the name `u`, which no session bears.
pub record IsLinkedBut (u : Str) (m : SessionManager) : Type 0 where
  pub sound : IsSoundBut u m
  pub open sound use *
  pub found :
      (s : ℕ) (c : ClientSession)
      → lookup s m.cli_session_map ≡ some c
      → c.username ≢ []
      → (c.username ≢ u) × (lookup c.username m.username_to_socket ≡ some s)

pub IsSoundBut-weaken : (m : SessionManager) (u : Str) → IsSound m → IsSoundBut u m
IsSoundBut-weaken m u l = record {
  own = l.own;
  named = λ v s _ h. l.named v s h;
  no_empty = l.no_empty;
}

-- A name that is not in the table is no session's.
pub absent-IsLinkedBut :
    (m : SessionManager) (u : Str)
    → IsLinked m
    → lookup u m.username_to_socket ≡ none
    → IsLinkedBut u m
absent-IsLinkedBut m u l absent = record {
  sound = IsSoundBut-weaken m u l.sound;
  found = λ s c h k. (λ e. ground (arith, l.found s c h k), l.found s c h k);
}

-- What a write to the session of socket `t` leaves.
abbrev pub Written :
    SessionManager → ℕ → (ClientSession → ClientSession) → ℕ → ClientSession → Type 0
Written m t f s c =
    ((t ≡ s) × ((d : ClientSession) × (lookup s m.cli_session_map ≡ some d) × (c ≡ f d)))
    ⊎ ((t ≢ s) × (lookup s m.cli_session_map ≡ some c))

module _ (m : SessionManager) (t : ℕ) (f : ClientSession → ClientSession)
    (same : (c : ClientSession) → (f c).socket ≡ c.socket) where
  pub Written-own :
      (own : (s : ℕ) (c : ClientSession) → lookup s m.cli_session_map ≡ some c → c.socket ≡ s)
      (s : ℕ) (c : ClientSession)
      → Written m t f s c
      → c.socket ≡ s
  Written-own own s c (inl (_, (d, e, q))) =
      ap (λ (x : ClientSession). x.socket) q ∙ same d ∙ own s d e
  Written-own own s c (inr (_, e)) = own s c e

-- The session that bears the name loses it; the table still leads to it.
module _ (m : SessionManager) (u : Str) (t : ℕ)
    (bound : lookup u m.username_to_socket ≡ some t) where
  module _ (l : IsSound m) where
    away : (v : Str) (s : ℕ) → v ≢ u → lookup v m.username_to_socket ≡ some s → t ≢ s
    away v s k h e = k (sym (bound_name_unique m u v s l (bound ∙ ap some e) h))

    pub kicked-IsSoundBut : IsSoundBut u (write_session t (set_username []) m)
    unfolding write_session
    kicked-IsSoundBut = record {
      own = λ s c h.
          Written-own m t (set_username []) (λ _. refl) l.own s c
            (modify_inv t s _ m.cli_session_map c h);
      named = λ v s k h. other v s (l.named v s h) (away v s k h);
      no_empty = l.no_empty;
    }
      where
        other :
            (v : Str) (s : ℕ)
            → (d : ClientSession) × (lookup s m.cli_session_map ≡ some d) × (d.username ≡ v)
            → t ≢ s
            → (d : ClientSession) × (lookup s (modify t (set_username []) m.cli_session_map)
                ≡ some d)
              × (d.username ≡ v)
        other v s (d, e, q) n = (d, lookup-modify_ne t s _ m.cli_session_map n ∙ e, q)

  pub kicked-IsLinkedBut : IsLinked m → IsLinkedBut u (write_session t (set_username []) m)
  unfolding write_session
  kicked-IsLinkedBut l = record {
    sound = kicked-IsSoundBut l.sound;
    found = λ s c h k. reached s c (modify_inv t s _ m.cli_session_map c h) k;
  }
    where
      reached :
          (s : ℕ) (c : ClientSession)
          → Written m t (set_username []) s c
          → c.username ≢ []
          → (c.username ≢ u) × (lookup c.username m.username_to_socket ≡ some s)
      reached s c (inl (_, (d, _, q))) k = absurd (k (ap (λ (x : ClientSession). x.username) q))
      reached s c (inr (n, e)) k = ((λ q. n (ground (arith, l.found s c e k))), l.found s c e k)

-- A session that bears no other name takes the name.
module _ (m : SessionManager) (u : Str) (s : ℕ) (c : ClientSession) (n : u ≢ [])
    (at : lookup s m.cli_session_map ≡ some c) (vacant : (c.username ≡ []) ⊎ (c.username ≡ u)) where
  abbrev pub take_name : SessionManager
  take_name = bind_username s u (write_session s (set_username u) m)

  module _ (l : IsSoundBut u m) where
    apart :
        (v : Str) (t : ℕ)
        → v ≢ u
        → v ≢ []
        → (d : ClientSession) × (lookup t m.cli_session_map ≡ some d) × (d.username ≡ v)
        → (d : ClientSession) × (lookup t (modify s (set_username u) m.cli_session_map) ≡ some d)
          × (d.username ≡ v)
    apart v t k j (d, e, q) =
        (d, lookup-modify_ne s t _ m.cli_session_map (λ z. clash z vacant) ∙ e, q)
      where
        clash : s ≡ t → (c.username ≡ []) ⊎ (c.username ≡ u) → ⊥
        clash z (inl i) = j (ground arith)
        clash z (inr i) = k (ground arith)

    pub take_name-IsSound : IsSound take_name
    unfolding bind_username write_session
    take_name-IsSound = record {
      own = λ t d h.
          Written-own m s (set_username u) (λ _. refl) l.own t d
            (modify_inv s t _ m.cli_session_map d h);
      named = λ v t h. bound v t (insert_inv u v s m.username_to_socket t h);
      no_empty = lookup-insert_ne u [] s m.username_to_socket n ∙ l.no_empty;
    }
      where
        bound :
            (v : Str) (t : ℕ)
            → ((u ≡ v) × (t ≡ s)) ⊎ ((u ≢ v) × (lookup v m.username_to_socket ≡ some t))
            → (d : ClientSession) × (lookup t (modify s (set_username u) m.cli_session_map)
                ≡ some d)
              × (d.username ≡ v)
        bound v t (inl (e, z)) =
            (set_username u c, rw z (lookup-modify_self s _ m.cli_session_map c at), e)
        bound v t (inr (k, e)) =
            apart v t (λ z. k (sym z)) (λ z. ground (arith, l.no_empty))
              (l.named v t (λ z. k (sym z)) e)

  pub take_name-IsLinked : IsLinkedBut u m → IsLinked take_name
  unfolding bind_username write_session
  take_name-IsLinked l = record {
    sound = take_name-IsSound l.sound;
    found = λ t d h k. reached t d (modify_inv s t _ m.cli_session_map d h) k;
  }
    where
      reached :
          (t : ℕ) (d : ClientSession)
          → Written m s (set_username u) t d
          → d.username ≢ []
          → lookup d.username (insert u s m.username_to_socket) ≡ some t
      reached t d (inl (e, (b, _, q))) k =
          rw (ap (λ (x : ClientSession). x.username) q)
            (rw (lookup-insert_self u s m.username_to_socket) (ap some e))
      reached t d (inr (_, e)) k =
          lookup-insert_ne u d.username s _ (λ z. (l.found t d e k).0 (sym z)) ∙ (l.found t d e k).1
