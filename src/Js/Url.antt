-- ===== src/Js/Url.antt =====
-- A parsed URL, as the servers and the command line read it: the parts that `new URL` gives.
use x402_worker_template.Prelude.{String, List}

pub record Url : Type 0 where
  pub href : String
  pub origin : String
  pub protocol : String
  pub username : String
  pub password : String
  pub hostname : String
  pub port : String
  pub pathname : String
  pub search : String
  pub hash : String
  pub search_params : List (String × String)
