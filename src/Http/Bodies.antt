-- ===== src/Http/Bodies.antt =====
-- What is read from the body of a stage request.
use storm_tape.Prelude.{◌≡◌, refl, subst, Option, none, some, List, [], ◌∷◌, All, Text, arith}
use mathlib.Core.Option.{some-injective}
use storm_tape.Path.{text}
use storm_tape.Model.{File}
use storm_tape.Service.Invariant.{IsNew}
use storm_tape.Http.Requests.{Json, each, object_path, files_from_json, ◌then_try◌}

module _ (J : Json) where
  pub then_try-some :
      {A B : Type 0} (o : Option A) (f : A → Option B) (b : B)
      → (o then_try f) ≡ some b
      → (a : A) × (o ≡ some a) × (f a ≡ some b)
  unfolding ◌then_try◌
  then_try-some none f b e = absurd (ground arith)
  then_try-some (some a) f b e = (a, refl, e)

  pub each-All :
      {A : Type 0} (Q : A → Type 0) (f : J.Value → Option A)
      → ((v : J.Value) (a : A) → f v ≡ some a → Q a)
      → (vs : List J.Value) (xs : List A) → each J f vs ≡ some xs
      → All Q xs
  unfolding each
  each-All Q f h [] xs e = rw (← some-injective _ _ e) tt
  each-All Q f h (v ∷ vs) xs e =
      let (a, ea, e1) = then_try-some (f v) _ xs e in
      let (rest, er, e2) = then_try-some (each J f vs) _ xs e1 in
      subst (All Q) (some-injective _ _ e2) (h v a ea, each-All Q f h vs rest er)

  -- The files that are read from a body are as `File{path}` makes them.
  pub files_from_json-IsNew :
      (body : Text) (files : List File) → files_from_json J body ≡ some files → All IsNew files
  unfolding files_from_json
  files_from_json-IsNew body files e =
      let (value, _, e1) = then_try-some (J.parse body) _ files e in
      let (jfiles, _, e2) = then_try-some (J.at value (text "files")) _ files e1 in
      let (vs, _, e3) = then_try-some (J.as_array jfiles) _ files e2 in
      each-All IsNew _
        (λ v f e4.
          let (p, _, e5) = then_try-some (object_path J v) _ f e4 in
          subst IsNew (some-injective _ _ e5) (refl, refl, refl))
        vs files e3
