-- ===== src/Database/Runs.antt =====
-- Operations whose statements all succeed: what they return and the tables that they leave.
use storm_tape.Prelude.{ℕ, ◌≡◌, refl, ap, ◌∙◌, Bool, false, Option, some}
use storm_tape.Database.Session.{
  Engine, Tables, World, Db, Result, ok, err, pure, raise, execute, query, transaction, attempt,
  ◌>>=◌, tick, continue, committed, caught, Error,
}

-- No statement fails.
abbrev pub IsQuiet : Engine → Type 0
IsQuiet E = (n : ℕ) → E.fails n ≡ false

-- `m` returns `a` from `w`, leaves the tables `t`, and sets no attribute.
pub record Runs {A : Type 0} (m : Db A) (w : World) (a : A) (t : Tables) : Type 0 where
  pub after : World
  pub result : m w ≡ (ok a, after)
  pub tables : after.tables ≡ t
  pub calls : after.set_calls ≡ w.set_calls

-- `m` throws `e` and changes no table.
pub record Throws {A : Type 0} (m : Db A) (w : World) (e : Error) : Type 0 where
  pub after : World
  pub result : m w ≡ (err e, after)
  pub tables : after.tables ≡ w.tables

module _ {A : Type 0} where
  pub Runs-pure : (w : World) (a : A) → Runs (pure a) w a w.tables
  unfolding pure
  Runs-pure w a = record { after = w; result = refl; tables = refl; calls = refl }

  pub Throws-raise : (w : World) (e : Error) → Throws (raise {A = A} e) w e
  unfolding raise
  Throws-raise w e = record { after = w; result = refl; tables = refl }

module _ {A B : Type 0} (m : Db A) (f : A → Db B) (w w' : World) where
  pub bind_ok : (a : A) → m w ≡ (ok a, w') → (m >>= f) w ≡ f a w'
  unfolding ◌>>=◌
  bind_ok a e = ap (λ (x : Result A × World). continue x.0 f x.1) e

  pub bind_err : (e : Error) → m w ≡ (err e, w') → (m >>= f) w ≡ (err e, w')
  unfolding ◌>>=◌
  bind_err e h = ap (λ (x : Result A × World). continue x.0 f x.1) h

module _ {A B : Type 0} where
  pub Runs-bind :
      (m : Db A) (f : A → Db B) (w : World) (a : A) (b : B) (t t' : Tables)
      → Runs m w a t
      → ((w' : World) → w'.tables ≡ t → w'.set_calls ≡ w.set_calls → Runs (f a) w' b t')
      → Runs (m >>= f) w b t'
  unfolding ◌>>=◌
  Runs-bind m f w a b t t' r k =
      let next = k r.after r.tables r.calls in
      record {
        after = next.after;
        result = ap (λ (x : Result A × World). continue x.0 f x.1) r.result ∙ next.result;
        tables = next.tables;
        calls = next.calls ∙ r.calls;
      }

  pub Runs-then :
      (m : Db A) (f : A → Db B) (w : World) (a : A) (b : B) (t t' : Tables)
      → (r : Runs m w a t) → Runs (f a) r.after b t'
      → Runs (m >>= f) w b t'
  unfolding ◌>>=◌
  Runs-then m f w a b t t' r next = record {
    after = next.after;
    result = ap (λ (x : Result A × World). continue x.0 f x.1) r.result ∙ next.result;
    tables = next.tables;
    calls = next.calls ∙ r.calls;
  }

  pub Throws-bind :
      (m : Db A) (f : A → Db B) (w : World) (a : A) (t : Tables) (e : Error)
      → t ≡ w.tables
      → Runs m w a t
      → ((w' : World) → w'.tables ≡ t → w'.set_calls ≡ w.set_calls → Throws (f a) w' e)
      → Throws (m >>= f) w e
  unfolding ◌>>=◌
  Throws-bind m f w a t e same r k =
      let next = k r.after r.tables r.calls in
      record {
        after = next.after;
        result = ap (λ (x : Result A × World). continue x.0 f x.1) r.result ∙ next.result;
        tables = next.tables ∙ r.tables ∙ same;
      }

pub Runs-attempt :
    (m : Db Bool) (w : World) (b : Bool) (t : Tables) → Runs m w b t → Runs (attempt m) w b t
unfolding attempt
Runs-attempt m w b t r = record {
  after = r.after;
  result = ap (λ (x : Result Bool × World). (caught x.0, x.1)) r.result;
  tables = r.tables;
  calls = r.calls;
}

module _ (E : Engine) (quiet : IsQuiet E) where
  pub Runs-query :
      {A : Type 0} (f : Tables → A) (w : World) → Runs (query E f) w (f w.tables) w.tables
  unfolding query
  Runs-query f w = record {
    after = tick w;
    result = rw (quiet w.issued);
    tables = refl;
    calls = refl;
  }

  pub Runs-execute :
      (f : Tables → Option Tables) (w : World) (t : Tables)
      → f w.tables ≡ some t
      → Runs (execute E f) w tt t
  unfolding execute
  Runs-execute f w t e = record {
    after = record (tick w) { tables = t };
    result = rw (quiet w.issued, e);
    tables = refl;
    calls = refl;
  }

  pub Runs-transaction :
      {A : Type 0} (m : Db A) (w : World) (a : A) (t : Tables)
      → ((w' : World) → w'.tables ≡ w.tables → w'.set_calls ≡ w.set_calls → Runs m w' a t)
      → Runs (transaction E m) w a t
  unfolding transaction
  Runs-transaction m w a t k =
      let r = k (tick w) refl refl in
      record {
        after = tick r.after;
        result = rw (quiet w.issued) (
            ap (λ (x : Result _ × World). committed E w.tables x.0 x.1) r.result
            ∙ rw (quiet r.after.issued));
        tables = r.tables;
        calls = r.calls;
      }
