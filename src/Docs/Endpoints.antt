-- ===== src/Docs/Endpoints.antt =====
-- web/app/api/page.tsx: the types of what the page documents; the tables are its children.
pub mod User
pub mod Admin
pub mod Setup
use wgtemporary_email.Base.{String, Bool, true, false, Option, none, some, List}
use wgtemporary_email.Base.Text.{◌+++◌}

pub data Method : Type 0 where
  get post put delete : Method

pub data ParamKind : Type 0 where
  path query body body_text header : ParamKind

-- `default_from` is whether the saved token is the default.
pub record ParamDef : Type 0 where
  pub name : String
  pub kind : ParamKind
  pub placeholder : Option String
  pub default_from : Bool

-- `destructive` is false where the source leaves it out.
pub record Endpoint : Type 0 where
  pub method : Method
  pub path : String
  pub desc_key : String
  pub params : List ParamDef
  pub curl : String
  pub destructive : Bool

abbrev pub param : ParamKind → String → String → ParamDef
param kind name placeholder = record {
  name = name;
  kind = kind;
  placeholder = some placeholder;
  default_from = false;
}

-- The `token` of a path.
abbrev pub token_param : ParamDef
token_param = record {
  name = "token";
  kind = path;
  placeholder = some "token";
  default_from = true;
}

abbrev pub endpoint : Method → String → String → List ParamDef → String → Bool → Endpoint
endpoint m at desc_key params curl destructive = record {
  method = m;
  path = at;
  desc_key = desc_key;
  params = params;
  curl = curl;
  destructive = destructive;
}

abbrev pub method_name : Method → String
method_name get = "GET"
method_name post = "POST"
method_name put = "PUT"
method_name delete = "DELETE"

-- `epKey`
unfoldable pub ep_key : Endpoint → String
ep_key ep = method_name ep.method +++ " " +++ ep.path
