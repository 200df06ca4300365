-- ===== src/Messages/History.antt =====
-- What HandleHistoryMessages answers: which messages, how many, and in which order.
use lite_chat_server.Common.{
  All, All-filter_map, All-take, select-All, List, Option, [], ap, arith, drop, inl, inr, is_empty,
  length, length-take, negsuc, none, pos, refl, some, subst, suc, take, take-append-drop, true,
  zero, ℕ, ℤ, ◌++◌, ◌||◌, ◌∷◌, ◌≡◌, ◌≤◌, ◌⊎◌, nat_eq,
}
use lite_chat_server.Database.Sorting.{by_time-All}
use lite_chat_server.Host.{Host}
use lite_chat_server.Database.{Database, MessageRow, UserRow, from_to, history_rows, user_with_id}
use lite_chat_server.Sessions.{SessionManager}
use lite_chat_server.MessageDao.{Message, get_history_messages, joined, named}
use lite_chat_server.Protocol.{Request, Response}
use lite_chat_server.Messages.{clamp_count, handle_history_messages, history_response}
use lite_chat_server.World.{World}
use lite_chat_server.World.Yields.{
  Same, Yields, Yields-bind, Yields-given, Yields-if, Yields-or_else, Yields-pure,
  execute_query-Yields,
}
use lite_chat_server.Users.Parties.{IsIdOf, Refused, get_user_id-Yields, reply-Refused}

clamp_count-bound : (count : ℤ) → (1 ≤ clamp_count count) × (clamp_count count ≤ 200)
unfolding clamp_count
clamp_count-bound (negsuc n) = (omega arith, omega arith)
clamp_count-bound (pos n) = (ground arith, ground arith)

-- One of the two has sent it to the other.
abbrev pub IsBetween : ℕ → ℕ → ℕ → ℕ → Type 0
IsBetween i j sender receiver = ((sender ≡ i) × (receiver ≡ j)) ⊎ ((sender ≡ j) × (receiver ≡ i))

abbrev RowBetween : ℕ → ℕ → MessageRow → Type 0
RowBetween i j row = IsBetween i j row.sender_id row.receiver_id

abbrev pub MessageBetween : ℕ → ℕ → Message → Type 0
MessageBetween i j msg = IsBetween i j msg.sender_id msg.receiver_id

all_or_full : {A : Type 0} (n : ℕ) (xs : List A) → (drop n xs ≡ []) ⊎ (length (take n xs) ≡ n)
all_or_full zero xs = inr refl
all_or_full (suc n) [] = inl refl
all_or_full (suc n) (x ∷ xs) = elim (all_or_full n xs) [ inl e ↦ inl e | inr e ↦ inr (ap suc e) ]

from_to-either :
    (i j : ℕ) (row : MessageRow) → (from_to i j row || from_to j i row) ≡ true → RowBetween i j row
from_to-either i j row e = ground (arith, e)

history_rows-between : (i j : ℕ) (db : Database) → All (RowBetween i j) (history_rows i j db)
unfolding history_rows
history_rows-between i j db =
    by_time-All (RowBetween i j) _ (select-All (RowBetween i j) _ (from_to-either i j) db.messages)

module _ ⦃host : Host⦄ where
  named-between :
      (i j : ℕ) (row : MessageRow) (sender receiver : Option UserRow) (msg : Message)
      → named row sender receiver ≡ some msg
      → RowBetween i j row
      → MessageBetween i j msg
  named-between i j row none receiver msg e h = absurd (cc e)
  named-between i j row (some sender) none msg e h = absurd (cc e)
  named-between i j row (some sender) (some receiver) msg e h =
      let sender_same : row.sender_id ≡ msg.sender_id = ap (sender_of msg) e in
      let receiver_same : row.receiver_id ≡ msg.receiver_id = ap (receiver_of msg) e in
      subst (λ k. IsBetween i j k msg.receiver_id) sender_same
        (subst (IsBetween i j row.sender_id) receiver_same h)
    where
      sender_of : Message → Option Message → ℕ
      sender_of other none = other.sender_id
      sender_of other (some msg) = msg.sender_id

      receiver_of : Message → Option Message → ℕ
      receiver_of other none = other.receiver_id
      receiver_of other (some msg) = msg.receiver_id

  joined-between :
      (i j : ℕ) (db : Database) (rows : List MessageRow)
      → All (RowBetween i j) rows
      → All (MessageBetween i j) (joined db rows)
  unfolding joined
  joined-between i j db rows a =
      All-filter_map (RowBetween i j) (MessageBetween i j) _
        (λ row msg.
          named-between i j row (user_with_id row.sender_id db) (user_with_id row.receiver_id db)
            msg)
        rows a

  -- The response shows messages between the two only, 200 at most, which are the first rows of the query: all of
  -- them, or as many as were asked for.
  abbrev pub IsHistory : ℕ → ℕ → ℤ → Database → Response → Type 0
  IsHistory i j count db r =
      (messages : List Message) × (later : List Message) × (r ≡ history_response messages)
      × (messages ++ later ≡ joined db (history_rows i j db))
      × All (MessageBetween i j) messages
      × (length messages ≤ 200)
      × ((later ≡ []) ⊎ (length messages ≡ clamp_count count))

  first_ones-IsHistory :
      (i j : ℕ) (count : ℤ) (db : Database)
      → IsHistory i j count db
          (history_response (take (clamp_count count) (joined db (history_rows i j db))))
  first_ones-IsHistory i j count db =
      let all = joined db (history_rows i j db) in
      let n = clamp_count count in
      (
        take n all,
        drop n all,
        refl,
        take-append-drop n all,
        All-take (MessageBetween i j) n all
            (joined-between i j db (history_rows i j db) (history_rows-between i j db)),
        omega (arith, length-take n all, clamp_count-bound count),
        all_or_full n all,
      )

  module _ (m : SessionManager) (db : Database) (n : ℕ) where
    -- The tables stay, and the response is the history.
    abbrev pub Answer : Request → Response → World → Type 0
    Answer request r w =
        Refused m db n r w
        ⊎ ((i : ℕ) × (j : ℕ) × IsIdOf m db n request.username i
            × IsIdOf m db n request.target_username j
            × IsHistory i j request.count db r
            × Same m db n w)

    history-Yields :
        (request : Request)
        → Yields (Same m db n) (Answer request) (handle_history_messages request)
    unfolding handle_history_messages get_history_messages
    history-Yields request =
        Yields-if (is_empty request.target_username) _ _
          (λ _. reply-Refused m db n 1001 _ (omega arith) (λ w h. h))
          λ _. Yields-bind _ _ (get_user_id-Yields m db n request.username) λ user.
            Yields-given _ λ known.
              Yields-or_else user _ _ (λ _. reply-Refused m db n 4003 _ (omega arith) (λ w h. h))
                λ i e. Yields-bind _ _ (get_user_id-Yields m db n request.target_username) λ target.
                  Yields-given _ λ known'.
                    Yields-or_else target _ _
                      (λ _. reply-Refused m db n 4003 _ (omega arith) (λ w h. h))
                      λ j e'. Yields-bind _ _ (execute_query-Yields m db n _) λ found.
                        Yields-given _ λ rows.
                          Yields-or_else found _ _
                            (λ _. reply-Refused m db n 5002 _ (omega arith) (λ w h. h))
                            λ messages e''. Yields-pure _ λ w h. inr (
                              i,
                              j,
                              known i e,
                              known' j e',
                              shown request i j found messages e'' rows,
                              h,
                            )
      where
        shown :
            (request : Request) (i j : ℕ) (found : Option (List Message)) (messages : List Message)
            → found ≡ some messages
            → (found ≡ none)
              ⊎ (found ≡ some (take (clamp_count request.count) (joined db (history_rows i j db))))
            → IsHistory i j request.count db (history_response messages)
        shown request i j found messages e (inl none_found) = absurd (cc (e, none_found))
        shown request i j found messages e (inr q) =
            subst (λ xs. IsHistory i j request.count db (history_response xs)) (cc (e, q))
              (first_ones-IsHistory i j request.count db)

-- Whatever the database answers: HandleHistoryMessages leaves the tables and the sessions as they are;
-- and it refuses with a code other than 0, or both names are those of users, and it shows 200 messages
-- at most, each sent by one of the two to the other: the first rows of the query, either all of them or
-- as many as the count asks for, which is 50 when it is not between 1 and 200.
pub handle_history_messages-outcome :
    ⦃host : Host⦄ (request : Request) (w : World)
    → Answer w.sessions w.db w.current_connections request
        (handle_history_messages request w).0
        (handle_history_messages request w).1
handle_history_messages-outcome request w =
    (history-Yields w.sessions w.db w.current_connections request).at w (refl, refl, refl)
