-- ===== src/Server/Replies.antt =====
-- internal/server/server.go: what `failoverPass` works on: the replies of upstreams, its variables and
-- what the server is set up with.
use token_route.Base.{ℕ, Option, none}
use token_route.Base.Text.{Text}
use token_route.Base.Time.{Instant, Duration}
use token_route.Prices.{PriceStore}
use token_route.RetryPolicy.Defs.{RetryPolicy}
use token_route.Router.Defs.{Router, Candidate}
use token_route.Server.Headers.{Header, TimeParsers}

-- The text is what is read of the body, of which at most 64 KiB are read when the status fails.
pub record Response : Type 0 where
  pub status : ℕ
  pub header : Header
  pub text : Text

pub data Reply : Type 0 where
  transport_error : Text → Reply
  answered : Response → Reply

-- One call: its reply, when it came and how long it took.
pub record Attempt : Type 0 where
  pub instant : Instant
  pub latency : Duration
  pub reply : Reply

-- The upstreams: what the call with a number gets from a provider for a model.
abbrev pub Upstream : Type 0
Upstream = ℕ → Text → Text → Attempt

pub data PassError : Type 0 where
  context_exceeded : PassError
  transport : Text → PassError

-- The variables of the loop, which are also its results.
pub record Pass (F : Type 0) : Type 0 where
  pub router : Router F
  pub cand : Option Candidate
  pub resp : Option Response
  pub last_fail : Option Response
  pub last_err : Option PassError
  pub attempts : ℕ

abbrev pub start_pass : {F : Type 0} → Router F → Pass F
start_pass r = record {
  router = r;
  cand = none;
  resp = none;
  last_fail = none;
  last_err = none;
  attempts = 0;
}

-- What the server is set up with, of `srv`.
pub record Setup (F : Type 0) : Type 0 where
  pub prices : Option (PriceStore F)
  pub retry_policy : Option RetryPolicy
  pub parsers : TimeParsers
  pub lower : ℕ → ℕ
