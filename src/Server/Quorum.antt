-- ===== src/Server/Quorum.antt =====
-- internal/server/fusionjudge.go: when the collection of the panel's answers ends.
use token_route.Base.{
  ℕ, ◌+◌, ◌≤◌, ◌<◌, ◌≡◌, refl, ◌⊎◌, inl, inr, Bool, true, false, List, [], ◌∷◌, ◌++◌, ◌==◌, ==_iff,
  length, length-append, arith, if◌then◌else◌, Bool-cases,
}
use token_route.Base.Int.{ℤ, pos, ◌≤ℤ◌}
use token_route.Server.Judge.{
  Event, answered, refused, broken, grace_over, deadline, Collected, nothing_yet, landed, quorum,
  run_panel,
}

module _ {Answer Reply Error : Type 0} where
  abbrev pub results : List (Event Answer Reply Error) → ℕ
  results [] = 0
  results (answered a ∷ events) = results events + 1
  results (refused reply ∷ events) = results events + 1
  results (broken e ∷ events) = results events + 1
  results (grace_over ∷ events) = results events
  results (deadline ∷ events) = results events

  abbrev pub in_time : List (Event Answer Reply Error) → Bool
  in_time [] = true
  in_time (deadline ∷ events) = false
  in_time (_ ∷ events) = in_time events

  -- The loop goes on, and the grace period has begun only after the quorum.
  record Waiting (n : ℕ) (min_panel : ℤ) (c : Collected Answer Reply Error) : Type 0 where
    short : landed c < n
    graced : c.in_grace ≡ true → min_panel ≤ℤ pos (length c.answers)

  -- All results are in, or the quorum is reached.
  pub record Done (n : ℕ) (min_panel : ℤ) (c : Collected Answer Reply Error) : Type 0 where
    pub bounded : landed c ≤ n
    pub decided : (landed c ≡ n) ⊎ (min_panel ≤ℤ pos (length c.answers))

  stop_or_go :
      (n : ℕ) (min_panel : ℤ) (next rest : Collected Answer Reply Error)
      → landed next ≤ n
      → (landed next < n → Done n min_panel rest)
      → Done n min_panel (if landed next == n then next else rest)
  stop_or_go n min_panel next rest h k = elim (Bool-cases (landed next == n)) [
    | inl full ↦
        let all_in = (==_iff (landed next) n).0 full in
        rw full (record { bounded = h; decided = inl all_in })
    | inr more ↦ rw more (k (ground (arith, ==_iff (landed next) n)))
  ]

  landed-quorum :
      (min_panel : ℤ) (c : Collected Answer Reply Error) → landed (quorum min_panel c) ≡ landed c
  landed-quorum min_panel c = ground arith

  quorum-Waiting :
      (n : ℕ) (min_panel : ℤ) (c : Collected Answer Reply Error)
      → (c.in_grace ≡ true → min_panel ≤ℤ pos (length c.answers))
      → landed (quorum min_panel c) < n
      → Waiting n min_panel (quorum min_panel c)
  quorum-Waiting n min_panel c before more = record { short = more; graced = λ h. ground arith }

  -- One more result, before the quorum is looked at.
  one_more :
      (n : ℕ) (min_panel : ℤ) (c raw : Collected Answer Reply Error)
      (events : List (Event Answer Reply Error))
      → Waiting n min_panel c
      → landed raw ≡ landed c + 1
      → (raw.in_grace ≡ true → min_panel ≤ℤ pos (length raw.answers))
      → (Waiting n min_panel (quorum min_panel raw)
          → Done n min_panel (run_panel n min_panel events (quorum min_panel raw)))
      → Done n min_panel (
          if landed (quorum min_panel raw) == n
          then quorum min_panel raw
          else run_panel n min_panel events (quorum min_panel raw))
  one_more n min_panel c raw events w counted before next =
      stop_or_go n min_panel (quorum min_panel raw) _
        (let short = w.short in rw (landed-quorum min_panel raw, counted) (omega arith))
        (λ more. next (quorum-Waiting n min_panel raw before more))

  either :
      (n : ℕ) (min_panel : ℤ) (b : Bool) (c rest : Collected Answer Reply Error)
      → (b ≡ true → Done n min_panel c)
      → Done n min_panel rest
      → Done n min_panel (if b then c else rest)
  either n min_panel true c rest h k = h refl
  either n min_panel false c rest h k = k

  run_panel-Done_from :
      (n : ℕ) (min_panel : ℤ) (events : List (Event Answer Reply Error))
      (c : Collected Answer Reply Error)
      → in_time events ≡ true
      → n ≤ landed c + results events
      → Waiting n min_panel c
      → Done n min_panel (run_panel n min_panel events c)
  unfolding run_panel
  run_panel-Done_from n min_panel [] c t enough w = let short = w.short in ground arith
  run_panel-Done_from n min_panel (answered a ∷ events) c t enough w =
      let raw = record c { answers = c.answers ++ (a ∷ []) } in
      let counted = length-append c.answers (a ∷ []) in
      let before = w.graced in
      one_more n min_panel c raw events w (ground arith) (λ h. ground arith)
        (λ w'.
          run_panel-Done_from n min_panel events _ t
            (rw (landed-quorum min_panel raw) (ground arith)) w')
  run_panel-Done_from n min_panel (refused reply ∷ events) c t enough w =
      let raw = record c { fails = c.fails ++ (reply ∷ []) } in
      let counted = length-append c.fails (reply ∷ []) in
      one_more n min_panel c raw events w (ground arith) w.graced (λ w'.
        run_panel-Done_from n min_panel events _ t (rw (landed-quorum min_panel raw) (ground arith))
          w')
  run_panel-Done_from n min_panel (broken e ∷ events) c t enough w =
      let raw = record c { errs = c.errs ++ (e ∷ []) } in
      let counted = length-append c.errs (e ∷ []) in
      one_more n min_panel c raw events w (ground arith) w.graced (λ w'.
        run_panel-Done_from n min_panel events _ t (rw (landed-quorum min_panel raw) (ground arith))
          w')
  run_panel-Done_from n min_panel (grace_over ∷ events) c t enough w =
      either n min_panel c.in_grace c _
        (λ graced.
          let short = w.short in record { bounded = ground arith; decided = inr (w.graced graced) })
        (run_panel-Done_from n min_panel events c t enough w)
  run_panel-Done_from n min_panel (deadline ∷ events) c t enough w = cc

  -- While the deadline has not passed and every one of the panel's calls sends its result, in whatever
  -- order and wherever the grace period ends, the collection ends with all results in, or with at
  -- least the quorum of answers; it never holds more results than there are calls.
  pub run_panel-Done :
      (n : ℕ) (min_panel : ℤ) (events : List (Event Answer Reply Error))
      → 1 ≤ n
      → in_time events ≡ true
      → n ≤ results events
      → Done n min_panel (run_panel n min_panel events nothing_yet)
  run_panel-Done n min_panel events panel t enough =
      run_panel-Done_from n min_panel events nothing_yet t (omega (arith, enough))
        (record { short = panel; graced = λ h. cc })
