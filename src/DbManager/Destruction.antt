-- ===== src/DbManager/Destruction.antt =====
-- What ~DBManager destroys.
use lite_chat_server.Common.{
  List, [], ap, arith, count, if◌then◌else◌, length, ltb, refl, ℕ, ◌+◌, ◌∙◌, ◌∷◌, ◌≡◌,
}
use lite_chat_server.DbManager.{DbManager, destroy_each, destroy_pool, no_pool}
use lite_chat_server.DbManager.Sharing.{DbReach, connections-IsShared}

destroy_each-all :
    (pool : List ℕ) (m : DbManager)
    → ((destroy_each pool m).0 ≡ pool)
      × ((destroy_each pool m).1.connection_pool ≡ [])
      × ((destroy_each pool m).1.created ≡ m.created)
unfolding destroy_each
destroy_each-all [] m = (refl, refl, refl)
destroy_each-all (conn ∷ rest) m =
    let (all, left, made) = destroy_each-all rest (record m { connection_pool = rest }) in
    (ap (λ l. conn ∷ l) all, left, made)

-- The destructor of a pool that has been used in any way leaves none behind in the pool, and destroys
-- every connection that was ever made exactly once, but for those that are still lent out, which it
-- does not destroy.
pub destroy_pool-all :
    (m : DbManager)
    → DbReach no_pool m
    → ((destroy_pool m).1.connection_pool ≡ [])
      × (length (destroy_pool m).0 + length m.borrowed ≡ m.created)
      × ((c : ℕ)
          → count c (destroy_pool m).0 + count c m.borrowed ≡ (if ltb c m.created then 1 else 0))
unfolding destroy_pool
destroy_pool-all m r =
    let (all, left, made) = destroy_each-all m.connection_pool m in
    let s = connections-IsShared m r in
    (
      left,
      omega (arith, s.all, ap length all),
      λ c. ap (λ l. count c l + count c m.borrowed) all ∙ s.once c,
    )

pub destroy_pool-created : (m : DbManager) → (destroy_pool m).1.created ≡ m.created
unfolding destroy_pool
destroy_pool-created m = (destroy_each-all m.connection_pool m).2
