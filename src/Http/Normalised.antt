-- ===== src/Http/Normalised.antt =====
-- The paths of a stage request are normal forms, so that the resolver looks at all absolute ones.
use storm_tape.Prelude.{◌≡◌, sym, ap, subst, ◌∙◌, some, List, All, Text, Bool-cases, inl, inr}
use mathlib.Core.Option.{some-injective}
use storm_tape.Path.{text, is_absolute, lexically_normal}
use storm_tape.Path.Normal.{lexically_normal_idem}
use storm_tape.Path.Relative.{lexically_normal-relative}
use storm_tape.Model.{File}
use storm_tape.Resolver.Resolve.{accepted, path_eq_refl}
use storm_tape.Http.Requests.{Json, object_path, string_path, files_from_json}
use storm_tape.Http.Bodies.{then_try-some, each-All}

-- The resolver looks at a normal form if the path was absolute.
accepted-normal : (path : Text) → accepted (lexically_normal path) ≡ is_absolute path
accepted-normal path = elim (Bool-cases (is_absolute path)) [
  | inl absolute ↦
      let (again, absolute') = lexically_normal_idem path absolute in
      rw (absolute, absolute', again) (path_eq_refl (lexically_normal path))
  | inr relative ↦ rw (relative, lexically_normal-relative path relative)
]

-- The file has the normal form of a text as its path.
abbrev pub IsNormalised : File → Type 0
IsNormalised f =
    (raw : Text) × (f.logical_path ≡ lexically_normal raw)
    × (accepted f.logical_path ≡ is_absolute raw)

module _ (J : Json) where
  object_path-normal :
      (v : J.Value) (p : Text)
      → object_path J v ≡ some p
      → (raw : Text) × (p ≡ lexically_normal raw)
  unfolding object_path string_path
  object_path-normal v p e =
      let (value, _, e1) = then_try-some J (J.at v (text "path")) _ p e in
      let (raw, _, e2) = then_try-some J (J.as_string value) _ p e1 in
      (raw, sym (some-injective _ _ e2))

  -- The path of each file of a body that is understood is the normal form of a text, and the resolver
  -- looks at it, rather than to answer with the empty path, exactly if that text is an absolute path.
  pub files_from_json-IsNormalised :
      (body : Text) (files : List File)
      → files_from_json J body ≡ some files
      → All IsNormalised files
  unfolding files_from_json
  files_from_json-IsNormalised body files e =
      let (value, _, e1) = then_try-some J (J.parse body) _ files e in
      let (jfiles, _, e2) = then_try-some J (J.at value (text "files")) _ files e1 in
      let (vs, _, e3) = then_try-some J (J.as_array jfiles) _ files e2 in
      each-All J IsNormalised _
        (λ v f e4.
          let (p, ep, e5) = then_try-some J (object_path J v) _ f e4 in
          let (raw, same) = object_path-normal v p ep in
          subst IsNormalised (some-injective _ _ e5)
            (raw, same, ap accepted same ∙ accepted-normal raw))
        vs files e3
