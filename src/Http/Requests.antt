-- ===== src/Http/Requests.antt =====
-- io.cpp: what is read from a request. The parsers of boost::json, boost::url and std::regex and the
-- conversions of boost are not part of the repository: they are parameters (Json, Parsers).
use storm_tape.Prelude.{
  ℕ, Bool, false, ◌&&◌, not, Option, none, some, List, [], ◌∷◌, ◌++◌, Text, eqb, ltb, if◌then◌else◌,
  ◌==◌, text_dec,
}
use storm_tape.Model.{LogicalPath, File, new_file, Configuration}
use storm_tape.Path.{text, is_empty, lexically_normal}
use storm_tape.Config.{ℤ, pos}
use storm_tape.Http.{HostInfo}
use storm_tape.Http.Numbers.{decimal, from_chars}

-- boost::json: `none` where it throws a boost::exception.
pub record Json : Type 1 where
  pub Value : Type 0
  pub parse : Text → Option Value
  -- as_object().at(key)
  pub at : Value → Text → Option Value
  -- as_object().if_contains(key), with `some none` for the null pointer
  pub if_contains : Value → Text → Option (Option Value)
  pub as_array : Value → Option (List Value)
  pub as_string : Value → Option Text

pub record Parsers : Type 0 where
  -- parse_origin_form, and the value of the parameter "first" if there is one
  pub first_param : Text → Option (Option Text)
  -- try_lexical_convert to int
  pub lexical_convert : Text → Option ℤ
  -- the first group of each of the three searches in a Forwarded header
  pub proto_of : Text → Option Text
  pub host_of : Text → Option Text
  pub port_of : Text → Option Text

infixl 10 ◌then_try◌
unfoldable pub ◌then_try◌ : {A B : Type 0} → Option A → (A → Option B) → Option B
none then_try f = none
some a then_try f = f a

module _ (J : Json) where
  unfoldable pub each : {A : Type 0} → (J.Value → Option A) → List J.Value → Option (List A)
  unfolding ◌then_try◌
  each f [] = some []
  each f (v ∷ vs) = f v then_try λ a. each f vs then_try λ rest. some (a ∷ rest)

  -- The path of an array's element.
  unfoldable pub string_path : J.Value → Option LogicalPath
  unfolding ◌then_try◌
  string_path v = J.as_string v then_try λ s. some (lexically_normal s)

  unfoldable pub object_path : J.Value → Option LogicalPath
  unfolding ◌then_try◌ string_path
  object_path v = J.at v (text "path") then_try string_path

  -- from_json(body, StageRequest::Tag): `none` is the BadRequest "Invalid JSON".
  unfoldable pub files_from_json : Text → Option (List File)
  unfolding ◌then_try◌ each object_path
  files_from_json body = J.parse body then_try λ value. J.at value (text "files") then_try λ jfiles.
      J.as_array jfiles then_try each (λ v. object_path v then_try λ p. some (new_file p))

  paths_by : J.Value → Option J.Value → Option (List LogicalPath)
  unfolding ◌then_try◌ each object_path string_path
  paths_by o (some p) = J.as_array p then_try each string_path
  paths_by o none = J.at o (text "files") then_try λ ja. J.as_array ja then_try each object_path

  -- from_json(body, RequestWithPaths::Tag)
  unfoldable pub paths_from_json : Text → Option (List LogicalPath)
  unfolding ◌then_try◌ paths_by
  paths_from_json body =
      J.parse body then_try λ o. J.if_contains o (text "paths") then_try paths_by o

is_port : Option ℤ → Bool
is_port (some (pos n)) = ltb 0 n && ltb n 65536
is_port o = false

is_colon_first : Text → Bool
is_colon_first [] = false
is_colon_first (c ∷ cs) = eqb c 58

-- What is before the first `:`, and what is after it.
unfoldable pub split_host : Text → Text × Option Text
split_host [] = ([], none)
split_host (c ∷ cs) =
    let (before, after) = split_host cs in if eqb c 58 then ([], some cs) else (c ∷ before, after)

module _ (P : Parsers) where
  set_proto : HostInfo → Option Text → HostInfo
  unfolding text_dec
  set_proto info none = info
  set_proto info (some proto) =
      if proto == text "http"
      then record info { proto = proto; port = text "80" }
      else if proto == text "https"
      then record info { proto = proto; port = text "443" }
      else record info { proto = proto }

  set_host : HostInfo → Option Text → HostInfo
  set_host info none = info
  set_host info (some host) = record info { host = host }

  -- boost::lexical_cast throws where the conversion fails.
  port_from : HostInfo → Text → Option ℤ → Option HostInfo
  port_from info port none = none
  port_from info port (some n) =
      some (if is_port (some n) then record info { port = port } else info)

  set_port : HostInfo → Option Text → Option HostInfo
  unfolding port_from is_port
  set_port info none = some info
  set_port info (some port) = port_from info port (P.lexical_convert port)

  -- fill_hostinfo_from_forwarded: `none` is the exception of lexical_cast.
  unfoldable pub fill_hostinfo_from_forwarded : HostInfo → Text → Option HostInfo
  unfolding set_proto set_host set_port
  fill_hostinfo_from_forwarded info http_forwarded =
      set_port (set_host (set_proto info (P.proto_of http_forwarded)) (P.host_of http_forwarded))
        (P.port_of http_forwarded)

  port_after : HostInfo → Option Text → HostInfo
  unfolding is_port
  port_after info none = info
  port_after info (some port_s) =
      if is_port (P.lexical_convert port_s) then record info { port = port_s } else info

  -- fill_hostinfo_from_host
  unfoldable pub fill_hostinfo_from_host : HostInfo → Text → HostInfo
  unfolding split_host port_after is_colon_first
  fill_hostinfo_from_host info http_host =
      let (before, after) = split_host http_host in
      port_after (if is_colon_first http_host then info else record info { host = before }) after

  -- get_hostinfo, from the two headers
  unfoldable pub get_hostinfo : Text → Text → Configuration → Option HostInfo
  unfolding fill_hostinfo_from_forwarded fill_hostinfo_from_host decimal
  get_hostinfo forwarded host conf =
      let info : HostInfo = record {
        proto = text "http";
        host = conf.hostname;
        port = decimal conf.port;
      } in
      if not (is_empty forwarded)
      then fill_hostinfo_from_forwarded info forwarded
      else if not (is_empty host)
      then some (fill_hostinfo_from_host info host)
      else some info

  count_from : Option Text → Option ℕ
  unfolding from_chars
  count_from none = some 1
  count_from (some v) = from_chars v

  -- from_body_params: `none` is the BadRequest "Invalid query parameters".
  unfoldable pub from_body_params : Text → Option ℕ
  unfolding count_from ◌then_try◌
  from_body_params body =
      if is_empty body then some 1 else P.first_param (text "/a?" ++ body) then_try count_from

  positive_or : ℕ → Option ℤ → ℕ
  positive_or d (some (pos n)) = if ltb 0 n then n else d
  positive_or d o = d

  natural_or : ℕ → Option ℤ → ℕ
  natural_or d (some (pos n)) = n
  natural_or d o = d

  -- from_query_params, from the parameters n and precise: InProgressRequest
  unfoldable pub from_query_params : Option Text → Option Text → ℕ × ℕ
  unfolding positive_or natural_or ◌then_try◌
  from_query_params n precise = (
    positive_or 1000 (n then_try P.lexical_convert),
    natural_or 0 (precise then_try P.lexical_convert),
  )
