-- ===== src/Server/Race.antt =====
-- internal/server/fusion.go: what the race of two candidates relays.
use token_route.Base.{
  ◌≡◌, refl, ◌∙◌, ap, arith, Bool, true, false, Bool-cases, ◌&&◌, not, Option, none, some, inl, inr,
  Option-cases, if◌then◌else◌,
}
use token_route.Base.Int.{pos}
use token_route.Base.Text.{Text}
use token_route.Base.Float.{Float64}
use token_route.Prices.{Price, PriceStore, get_price}
use token_route.Router.Defs.{Router, Candidate}
use token_route.Router.Lookups.{inc_inflight}
use token_route.Server.Headers.{retryable_status}
use token_route.Server.Replies.{
  Response, Reply, transport_error, answered, Attempt, Upstream, Pass, Setup,
}
use token_route.Server.Fusion.{
  FusionResult, is_200, or_first, fusion_cost, on_arm, choose, fusion_run,
}

module _ (fl : Float64) (s : Setup fl.F) where
  open fl use {F, of_int, add}

  -- The result of an arm, which does not depend on the router.
  abbrev pub answer_of : Reply → Option Response
  answer_of (transport_error message) = none
  answer_of (answered att) = if retryable_status s.retry_policy att.status then none else some att

  on_arm-resp :
      (a : Attempt) (z : Reply) (c : Candidate) (r : Router F)
      → (on_arm fl s a z c r).1.resp ≡ answer_of z
  unfolding on_arm
  on_arm-resp a (transport_error message) c r = refl
  on_arm-resp a (answered att) c r =
      elim (Bool-cases (retryable_status s.retry_policy att.status)) [
        | inl e ↦ rw e refl
        | inr e ↦ rw e refl
      ]

  abbrev price_sum : Option (Price F) → F
  price_sum none = of_int (pos 1000000000000000000)
  price_sum (some p) = add p.prompt_per_1m p.completion_per_1m

  -- The price of a model, prompt and completion together: 1e18 where none is known.
  abbrev pub dearness : Option (PriceStore F) → Text → F
  dearness none model = price_sum none
  dearness (some prices) model = price_sum (get_price model prices)

  fusion_cost-dearness : (model : Text) → fusion_cost fl s model ≡ dearness s.prices model
  unfolding fusion_cost
  fusion_cost-dearness model = elim (Option-cases s.prices) [
    | inl e ↦ ground arith
    | inr (prices, e) ↦ ground arith
  ]

  -- A 200 wins over any other answer, the second of two only if its model is cheaper; else the first
  -- answer that there is.
  abbrev pub winner : Bool → Option Response → Option Response → Option Response
  winner cheaper x y =
      if is_200 x && not (is_200 y && cheaper) then x else (if is_200 y then y else or_first x y)

  choose-winner :
      (c d : Candidate) (x y : FusionResult) (r : Router F)
      → (choose fl s c d x y r).resp
        ≡ winner (fl.lt (fusion_cost fl s d.model) (fusion_cost fl s c.model)) x.resp y.resp
  unfolding choose
  choose-winner c d x y r = elim (Option-cases x.resp) [
    | inl e ↦ elim (Option-cases y.resp) [ inl f ↦ ground arith | inr (att, f) ↦ ground arith ]
    | inr (att, e) ↦ elim (Option-cases y.resp) [
      | inl f ↦ ground arith
      | inr (att', f) ↦ ground arith
    ]
  ]

  if-resp :
      (b : Bool) (p q : Pass F) (o : Option Response)
      → p.resp ≡ o
      → q.resp ≡ o
      → (if b then p else q).resp ≡ o
  if-resp true p q o h k = h
  if-resp false p q o h k = k

  winner-arms :
      (a b : Attempt) (c d : Candidate) (r r' r'' : Router F)
      → (choose fl s c d (on_arm fl s a a.reply c r).1 (on_arm fl s b b.reply d r').1 r'').resp
        ≡ winner
            (fl.lt (fusion_cost fl s d.model) (fusion_cost fl s c.model))
            (answer_of a.reply)
            (answer_of b.reply)
  winner-arms a b c d r r' r'' =
      let cheaper = fl.lt (fusion_cost fl s d.model) (fusion_cost fl s c.model) in
      let y = (on_arm fl s b b.reply d r').1 in
      choose-winner c d (on_arm fl s a a.reply c r).1 y r''
      ∙ ap (λ o. winner cheaper o y.resp) (on_arm-resp a a.reply c r)
      ∙ ap (λ o. winner cheaper (answer_of a.reply) o) (on_arm-resp b b.reply d r')

  -- Which answer the race relays depends on the two replies and on the prices alone: a 200 wins over
  -- any other answer, and of two that of the cheaper model, the first's unless the second is cheaper,
  -- where a model without a price costs 1e18; without a 200 the first arm's answer is relayed, else
  -- the second's, else none. Which reply is there first does not matter, nor the state of the router.
  pub fusion_run-winner :
      (call : Upstream) (swapped : Bool) (c d : Candidate) (r : Router F)
      → (fusion_run fl s call swapped c d r).resp
        ≡ winner
            (fl.lt (dearness s.prices d.model) (dearness s.prices c.model))
            (answer_of (call 0 c.provider.name c.model).reply)
            (answer_of (call 1 d.provider.name d.model).reply)
  unfolding fusion_run
  fusion_run-winner call swapped c d r =
      let started = inc_inflight d.provider.name (inc_inflight c.provider.name r) in
      let a = call 0 c.provider.name c.model in
      let b = call 1 d.provider.name d.model in
      let in_order =
        winner-arms a b c d started (on_arm fl s a a.reply c started).0
          (on_arm fl s b b.reply d (on_arm fl s a a.reply c started).0).0 in
      let in_turn =
        winner-arms a b c d (on_arm fl s b b.reply d started).0 started
          (on_arm fl s a a.reply c (on_arm fl s b b.reply d started).0).0 in
      rw (← fusion_cost-dearness c.model, ← fusion_cost-dearness d.model)
        (if-resp swapped _ _ _ in_turn in_order)
