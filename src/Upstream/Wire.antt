-- ===== src/Upstream/Wire.antt =====
-- The requests that leave the server, in forward of internal/proxy/http.go and muxRoundTrip of
-- internal/proxy/mux.go, and the answers of targets.
use tvpn.Base.{Bool, List, ℕ}
use tvpn.Cookies.{Cookie}
use tvpn.Guard.{Target}
use tvpn.Headers.{Header}
use tvpn.Text.{Text}
use tvpn.Upstream.Access.{Dial}

-- What a request leaves the server with, and how it is dialled.
pub record Sent : Type 0 where
  pub method : Text
  pub target : Target
  pub header : Header
  -- the cookies of the jar, which are the only ones
  pub cookies : List (Text × Text)
  pub body : Text
  pub dial : Dial

-- What a target answers; `chunks` is what reading the body gives, `interrupted` that it ends in an error.
pub record Response : Type 0 where
  pub status : ℕ
  pub status_text : Text
  pub header : Header
  pub cookies : List Cookie
  pub chunks : List Text
  pub interrupted : Bool
