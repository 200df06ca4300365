-- ===== src/World/Keeps.antt =====
-- Invariants of actions: one rule for each way to build an action.
use lite_chat_server.Common.{
  Bool, Option, false, if◌then◌else◌, none, refl, some, suc, true, zero, ℕ, ◌≡◌,
}
use lite_chat_server.World.{M, World, gets, or_else, pure, update, when, ◌>>=◌, ◌>>◌}

-- `m` keeps `P`, whatever it returns.
pub record Keeps {A : Type 0} (P : World → Type 0) (m : M A) : Type 0 where
  pub at : (w : World) → P w → P (m w).1

module _ {P : World → Type 0} where
  pub Keeps-pure : {A : Type 0} (value : A) → Keeps P (pure value)
  unfolding pure
  Keeps-pure value = record { at = λ _ now. now }

  pub Keeps-gets : {A : Type 0} (f : World → A) → Keeps P (gets f)
  unfolding gets
  Keeps-gets f = record { at = λ w h. h }

  pub Keeps-update : (f : World → World) → ((w : World) → P w → P (f w)) → Keeps P (update f)
  unfolding update
  Keeps-update f k = record { at = k }

  pub Keeps-bind :
      {A B : Type 0} (first : M A) (rest : A → M B)
      → Keeps P first
      → ((result : A) → Keeps P (rest result))
      → Keeps P (first >>= rest)
  unfolding ◌>>=◌
  Keeps-bind first rest one more = record {
    at = λ w h. (more (first w).0).at (first w).1 (one.at w h);
  }

  pub Keeps-then : {A B : Type 0} (m : M A) (k : M B) → Keeps P m → Keeps P k → Keeps P (m >> k)
  Keeps-then m k km kk = Keeps-bind m _ km (λ _. kk)

  pub Keeps-if :
      {A : Type 0} (b : Bool) (m n : M A) → Keeps P m → Keeps P n → Keeps P (if b then m else n)
  Keeps-if true m n km kn = km
  Keeps-if false m n km kn = kn

  pub Keeps-or_else :
      {A B : Type 0} (o : Option A) (n : M B) (f : A → M B)
      → Keeps P n
      → ((a : A) → Keeps P (f a))
      → Keeps P (or_else o n f)
  Keeps-or_else none n f kn kf = kn
  Keeps-or_else (some a) n f kn kf = kf a

  -- The rest may use that `o` has the value.
  pub Keeps-or_else-some :
      {A B : Type 0} (o : Option A) (n : M B) (f : A → M B)
      → Keeps P n
      → ((a : A) → o ≡ some a → Keeps P (f a))
      → Keeps P (or_else o n f)
  Keeps-or_else-some none n f kn kf = kn
  Keeps-or_else-some (some a) n f kn kf = kf a refl

  pub Keeps-number :
      {B : Type 0} (k : ℕ) (n : M B) (f : ℕ → M B)
      → Keeps P n
      → ((i : ℕ) → Keeps P (f i))
      → Keeps P (elim k [ zero ↦ n | suc i ↦ f i ])
  Keeps-number zero n f kn kf = kn
  Keeps-number (suc i) n f kn kf = kf i

pub ruleset keeps_rules = (Keeps-pure, Keeps-gets, Keeps-bind, Keeps-then, Keeps-if, Keeps-or_else)

-- From `P` the action `m` leads to `R`, whatever it returns.
pub record Leads {A : Type 0} (P R : World → Type 0) (m : M A) : Type 0 where
  pub to : (w : World) → P w → R (m w).1

module _ {P R : World → Type 0} where
  pub Leads-weaken : {A : Type 0} (m : M A) → ((w : World) → P w → R w) → Keeps R m → Leads P R m
  Leads-weaken m k km = record { to = λ w h. km.at w (k w h) }

  pub Leads-after :
      {A B : Type 0} (m : M A) (f : A → M B)
      → Leads P R m
      → ((a : A) → Keeps R (f a))
      → Leads P R (m >>= f)
  unfolding ◌>>=◌
  Leads-after m f km kf = record { to = λ w h. (kf (m w).0).at (m w).1 (km.to w h) }

  pub Leads-before :
      {A B : Type 0} (m : M A) (f : A → M B)
      → Keeps P m
      → ((a : A) → Leads P R (f a))
      → Leads P R (m >>= f)
  unfolding ◌>>=◌
  Leads-before m f km kf = record { to = λ w h. (kf (m w).0).to (m w).1 (km.at w h) }

  pub Leads-when :
      (b : Bool) (m : M (Unit {0})) → ((w : World) → P w → R w) → Leads P R m → Leads P R (when b m)
  unfolding pure
  Leads-when true m k km = km
  Leads-when false m k km = record { to = k }

pub Leads-bind :
    {P R S : World → Type 0} {A B : Type 0} (m : M A) (f : A → M B)
    → Leads P R m
    → ((a : A) → Leads R S (f a))
    → Leads P S (m >>= f)
unfolding ◌>>=◌
Leads-bind m f km kf = record { to = λ w h. (kf (m w).0).to (m w).1 (km.to w h) }
