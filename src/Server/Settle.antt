-- ===== src/Server/Settle.antt =====
-- internal/server/server.go: where the tokens and the cost of a request are booked. A call of the key
-- store, which is a table of SQLite, is booked as a charge.
use token_route.Base.{◌&&◌, not, Option, none, some, List, [], ◌∷◌, ◌++◌, if◌then◌else◌}
use token_route.Base.Int.{ℤ, pos, ltb_ℤ}
use token_route.Base.Text.{codes, text_eq}
use token_route.Base.Time.{Instant}
use token_route.Base.Dict.{text_key}
use token_route.Base.Float.{Float64}
use token_route.RetryPolicy.Defs.{is_blank}
use token_route.Quota.Defs.{record_usage}
use token_route.RateLimit.Registry.{Registry, deduct_tpm}
use token_route.Router.Defs.{Router}
use token_route.Router.Record.{record_tokens}
use token_route.Server.Billing.{Entry}

-- The identity and the limits of the key that a request came under.
pub record Payer : Type 0 where
  pub key_id : ℤ
  pub limit_id : ℤ
  pub tpm : ℤ

-- `SpendTokens` and `SpendUSD`
pub data Charge (F : Type 0) : Type 0 where
  spend_tokens : ℤ → ℤ → Charge F
  spend_usd : ℤ → F → Charge F

-- `limiter` is none when the registry is nil.
pub record Accounts (F : Type 0) : Type 0 where
  pub limiter : Option (Registry F)
  pub charges : List (Charge F)
  pub router : Router F

module _ (fl : Float64) where
  open fl use {F, of_int, lt}

  abbrev deducted : Instant → Payer → ℤ → Option (Registry F) → Option (Registry F)
  deducted now k total none = none
  deducted now k total (some r) = some (deduct_tpm fl now k.limit_id k.tpm total r)

  abbrev usd_charges : Payer → Option F → List (Charge F)
  usd_charges k none = []
  usd_charges k (some usd) = if lt (of_int (pos 0)) usd then spend_usd k.key_id usd ∷ [] else []

  -- The charges to the key, in `chatCompletions` and in `embeddings`.
  unfoldable pub charge_key : Instant → Option Payer → Entry F → Accounts F → Accounts F
  charge_key now none e a = a
  charge_key now (some k) e a =
      let used = record a {
        limiter = deducted now k e.total_tokens a.limiter;
        charges = a.charges ++ (spend_tokens k.key_id e.total_tokens ∷ []);
      } in
      let booked = if ltb_ℤ (pos 0) e.total_tokens then used else a in
      record booked { charges = booked.charges ++ usd_charges k e.cost_usd }

  -- The end of `chatCompletions` but for the cache and the log.
  unfoldable pub settle_chat : Instant → Option Payer → Entry F → Accounts F → Accounts F
  unfolding charge_key
  settle_chat now k e a =
      let charged = charge_key now k e a in
      let r = charged.router in
      let booked = record r {
        quota = record_usage now e.provider e.model e.total_tokens r.quota;
      } in
      if ltb_ℤ (pos 0) e.total_tokens
        && not (is_blank e.provider)
        && not (text_eq e.provider (codes "cache"))
      then record charged { router = record_tokens now e.provider e.total_tokens booked }
      else charged

  -- The end of `embeddings`, which bills the prompt alone.
  unfoldable pub settle_embeddings : Instant → Option Payer → Entry F → Accounts F → Accounts F
  unfolding charge_key
  settle_embeddings now k e a =
      let charged = charge_key now k e a in
      if ltb_ℤ (pos 0) e.total_tokens && not (is_blank e.provider)
      then record charged { router = record_tokens now e.provider e.total_tokens charged.router }
      else charged
