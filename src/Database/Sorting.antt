-- ===== src/Database/Sorting.antt =====
-- What ORDER BY does to the rows.
use lite_chat_server.Common.{
  All, All-map, Bool, Pairwise, false, List, [], any, ap, arith, if◌then◌else◌, leb, length, refl,
  suc, true, ◌||◌, ◌∙◌, ◌∷◌, ◌≡◌, ◌≤◌,
}
use lite_chat_server.Database.{MessageRow, by_time, insert_by_time}

module _ (P : MessageRow → Type 0) where
  insert_by_time-All :
      (row : MessageRow) (rows : List MessageRow)
      → P row
      → All P rows
      → All P (insert_by_time row rows)
  unfolding insert_by_time
  insert_by_time-All row [] p a = (p, tt)
  insert_by_time-All row (x ∷ rows) p (q, a) =
      go (leb row.send_time x.send_time) (insert_by_time-All row rows p a)
    where
      go :
          (b : Bool)
          → All P (insert_by_time row rows)
          → All P (if b then row ∷ x ∷ rows else x ∷ insert_by_time row rows)
      go true rest = (p, (q, a))
      go false rest = (q, rest)

  pub by_time-All : (rows : List MessageRow) → All P rows → All P (by_time rows)
  unfolding by_time
  by_time-All [] a = tt
  by_time-All (row ∷ rows) (p, a) = insert_by_time-All row (by_time rows) p (by_time-All rows a)

any-insert_by_time :
    (q : MessageRow → Bool) (row : MessageRow) (rows : List MessageRow)
    → any q (insert_by_time row rows) ≡ (q row || any q rows)
unfolding insert_by_time
any-insert_by_time q row [] = refl
any-insert_by_time q row (x ∷ rows) = ground (arith, any-insert_by_time q row rows)

pub any-by_time :
    (q : MessageRow → Bool) (rows : List MessageRow) → any q (by_time rows) ≡ any q rows
unfolding by_time
any-by_time q [] = refl
any-by_time q (row ∷ rows) =
    any-insert_by_time q row (by_time rows) ∙ ap (λ b. q row || b) (any-by_time q rows)

length-insert_by_time :
    (row : MessageRow) (rows : List MessageRow)
    → length (insert_by_time row rows) ≡ suc (length rows)
unfolding insert_by_time
length-insert_by_time row [] = refl
length-insert_by_time row (x ∷ rows) = ground (arith, length-insert_by_time row rows)

pub length-by_time : (rows : List MessageRow) → length (by_time rows) ≡ length rows
unfolding by_time
length-by_time [] = refl
length-by_time (row ∷ rows) =
    length-insert_by_time row (by_time rows) ∙ ap suc (length-by_time rows)

-- The order of ORDER BY send_time ASC.
abbrev pub InOrder : List MessageRow → Type 0
InOrder = Pairwise (λ a b. a.send_time ≤ b.send_time)

insert_by_time-InOrder :
    (row : MessageRow) (rows : List MessageRow) → InOrder rows → InOrder (insert_by_time row rows)
unfolding insert_by_time
insert_by_time-InOrder row [] w = (tt, tt)
insert_by_time-InOrder row (x ∷ rows) (a, w) =
    go (leb row.send_time x.send_time) refl (insert_by_time-InOrder row rows w)
      (λ later. insert_by_time-All (λ y. x.send_time ≤ y.send_time) row rows later a)
  where
    go :
        (b : Bool)
        → leb row.send_time x.send_time ≡ b
        → InOrder (insert_by_time row rows)
        → (x.send_time ≤ row.send_time
            → All (λ y. x.send_time ≤ y.send_time) (insert_by_time row rows))
        → InOrder (if b then row ∷ x ∷ rows else x ∷ insert_by_time row rows)
    go true e sorted bound =
        let first : row.send_time ≤ x.send_time = ground (arith, e) in
        ((first, All-map _ _ rows (λ y le. omega (arith, first, le)) a), (a, w))
    go false e sorted bound = (bound (ground (arith, e)), sorted)

pub by_time-InOrder : (rows : List MessageRow) → InOrder (by_time rows)
unfolding by_time
by_time-InOrder [] = tt
by_time-InOrder (row ∷ rows) = insert_by_time-InOrder row (by_time rows) (by_time-InOrder rows)
