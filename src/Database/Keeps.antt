-- ===== src/Database/Keeps.antt =====
-- Invariants of the tables, one rule for each way to build an operation: they hold whatever
-- statements fail.
use storm_tape.Prelude.{◌≡◌, refl, Bool, true, false, Option, none, some, arith, if◌then◌else◌}
use storm_tape.Database.Session.{
  soci_error, outcome, Engine, Tables, World, Db, Result, ok, err, Error, pure, raise, execute,
  query, transaction, attempt, ◌>>=◌, continue, committed, tick,
}

-- `m` keeps `P`, whether it returns or throws.
pub record Keeps {A : Type 0} (P : Tables → Type 0) (m : Db A) : Type 0 where
  pub at : (w : World) → P w.tables → P (m w).1.tables

Keeps-committed :
    {A : Type 0} (P : Tables → Type 0) (E : Engine) (before : Tables) (r : Result A) (w : World)
    → P before
    → P w.tables
    → P (committed E before r w).1.tables
Keeps-committed P E before (ok a) w h k = ground arith
Keeps-committed P E before (err e) w h k = h

module _ {A : Type 0} {P : Tables → Type 0} where
  pub Keeps-pure : (a : A) → Keeps P (pure a)
  unfolding pure
  Keeps-pure a = record { at = λ w h. h }

  pub Keeps-raise : (e : Error) → Keeps P (raise {A = A} e)
  unfolding raise
  Keeps-raise e = record { at = λ w h. h }

  pub Keeps-if : (b : Bool) (m n : Db A) → Keeps P m → Keeps P n → Keeps P (if b then m else n)
  Keeps-if true m n km kn = km
  Keeps-if false m n km kn = kn

  pub Keeps-query : (E : Engine) (f : Tables → A) → Keeps P (query E f)
  unfolding query
  Keeps-query E f = record { at = λ w h. ground arith }

  pub Keeps-transaction : (E : Engine) (m : Db A) → Keeps P m → Keeps P (transaction E m)
  unfolding transaction
  Keeps-transaction E m k = record {
    at = λ w h.
        ground
          (arith, Keeps-committed P E w.tables (m (tick w)).0 (m (tick w)).1 h (k.at (tick w) h));
  }

module _ {A B : Type 0} {P : Tables → Type 0} where
  Keeps-continue :
      (r : Result A) (f : A → Db B) → ((a : A) → Keeps P (f a)) → Keeps P (continue r f)
  Keeps-continue (ok a) f k = k a
  Keeps-continue (err e) f k = record { at = λ w h. h }

  pub Keeps-bind :
      (m : Db A) (f : A → Db B) → Keeps P m → ((a : A) → Keeps P (f a)) → Keeps P (m >>= f)
  unfolding ◌>>=◌
  Keeps-bind m f km kf = record { at = λ w h. (Keeps-continue (m w).0 f kf).at (m w).1 (km.at w h) }

module _ {P : Tables → Type 0} where
  pub Keeps-attempt : (m : Db Bool) → Keeps P m → Keeps P (attempt m)
  unfolding attempt
  Keeps-attempt m k = record { at = k.at }

  pub Keeps-execute :
      (E : Engine) (f : Tables → Option Tables)
      → ((t t' : Tables) → f t ≡ some t' → P t → P t')
      → Keeps P (execute E f)
  unfolding execute
  Keeps-execute E f k = record { at = λ w h. go w h (f w.tables) refl }
    where
      go :
          (w : World)
          → P w.tables
          → (o : Option Tables) → f w.tables ≡ o
          → P (execute E f w).1.tables
      go w h none e = ground arith
      go w h (some t) e = ground (arith, k w.tables t e h)

pub ruleset keeps_rules =
    (Keeps-pure, Keeps-raise, Keeps-if, Keeps-query, Keeps-transaction, Keeps-attempt, Keeps-bind)

-- From tables with `Q`, `m` leaves tables with `P`, whether it returns or throws.
pub record Gives {A : Type 0} (Q P : Tables → Type 0) (m : Db A) : Type 0 where
  pub at : (w : World) → Q w.tables → P (m w).1.tables

abbrev Ended : {A : Type 0} → (P Q : Tables → Type 0) → Result A → Tables → Type 0
Ended P Q (ok a) t = Q t
Ended P Q (err e) t = P t

module _ (P Q : Tables → Type 0) (E : Engine) where
  pub Gives-execute :
      (f : Tables → Option Tables)
      → ((t : Tables) → Q t → P t)
      → ((t t' : Tables) → f t ≡ some t' → Q t → P t')
      → Gives Q P (execute E f)
  unfolding execute
  Gives-execute f weaken k = record { at = λ w h. go w h (f w.tables) refl }
    where
      go :
          (w : World)
          → Q w.tables
          → (o : Option Tables) → f w.tables ≡ o
          → P (execute E f w).1.tables
      go w h none e = ground (arith, weaken w.tables)
      go w h (some t) e = ground (arith, k w.tables t e h, weaken w.tables)

  -- A statement after which `Q` holds unless it throws.
  execute-Ended :
      (f : Tables → Option Tables)
      → ((t t' : Tables) → f t ≡ some t' → P t → Q t')
      → (w : World) → P w.tables
      → Ended P Q (execute E f w).0 (execute E f w).1.tables
  unfolding execute
  execute-Ended f k w h = go (E.fails w.issued) (f w.tables) refl
    where
      go :
          (b : Bool) (o : Option Tables)
          → f w.tables ≡ o
          → (let r = if b then (err soci_error, tick w) else outcome o w in
              Ended P Q r.0 r.1.tables)
      go true o e = h
      go false none e = h
      go false (some t) e = k w.tables t e h

  continue-Ended :
      {A B : Type 0} (r : Result A) (f : A → Db B) (w : World)
      → ((a : A) → Gives Q P (f a))
      → Ended P Q r w.tables
      → P (continue r f w).1.tables
  continue-Ended (ok a) f w k h = (k a).at w h
  continue-Ended (err e) f w k h = h

  -- A statement that makes `Q` hold, and what relies on it.
  pub Keeps-execute_then :
      {B : Type 0} (g : Tables → Option Tables) (f : Unit → Db B)
      → ((t t' : Tables) → g t ≡ some t' → P t → Q t')
      → ((a : Unit) → Gives Q P (f a))
      → Keeps P (execute E g >>= f)
  unfolding ◌>>=◌
  Keeps-execute_then g f k kf = record {
    at = λ w h. continue-Ended (execute E g w).0 f (execute E g w).1 kf (execute-Ended g k w h);
  }

  pub Gives-bind :
      {A B : Type 0} (m : Db A) (f : A → Db B)
      → Gives Q P m
      → ((a : A) → Keeps P (f a))
      → Gives Q P (m >>= f)
  unfolding ◌>>=◌
  Gives-bind m f km kf = record { at = λ w h. (Keeps-continue (m w).0 f kf).at (m w).1 (km.at w h) }
