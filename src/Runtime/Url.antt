-- ===== src/Runtime/Url.antt =====
-- The WHATWG `URL` of the runtime, as a parameter: parsing, writing and the query's parameters.
use consensus_node.Base.{Text, Option, List, ◌++◌, ◌∷◌, [], if◌then◌else◌, ◌==◌, text_eq}

pub record Url : Type 0 where
  pub protocol : Text
  pub username : Text
  pub password : Text
  pub hostname : Text
  pub port : Text
  pub pathname : Text
  pub search : Text
  pub hash : Text

pub record UrlApi : Type 0 where
  pub parse : Text → Option Url
  pub to_string : Url → Text
  -- [...u.searchParams.entries()], and the search of a url whose parameters were appended one by one
  pub search_params : Text → List (Text × Text)
  pub search_of : List (Text × Text) → Text

-- `url.host`: the port is there unless it is the default one
abbrev pub host : Url → Text
host u = if u.port == [] then u.hostname else u.hostname ++ (b':' ∷ u.port)
