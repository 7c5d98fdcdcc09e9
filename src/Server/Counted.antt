-- ===== src/Server/Counted.antt =====
-- internal/server/estimate.go: a text counts at most as many units as it has runes.
use token_route.Base.{ℕ, ◌+◌, ◌≤◌, ◌≡◌, Bool, true, false, [], ◌∷◌, length, arith, if◌then◌else◌}
use token_route.Base.Text.{Text}
use token_route.Server.Runes.{
  Unicode, Counts, Scan, fresh_scan, outside, on_digit, on_letter, scan_rune, scan_text,
}

abbrev pub units : Counts → ℕ
units c =
    c.word + c.number + c.cjk + c.symbol + c.math + c.url_delim + c.at_sign + c.emoji + c.newline
    + c.space

on_letter-units : (s : Scan) → units (on_letter s).counts ≤ units s.counts + 1
unfolding on_letter
on_letter-units s = ground arith

on_digit-units : (s : Scan) → units (on_digit s).counts ≤ units s.counts + 1
on_digit-units s = ground arith

record Within (n : ℕ) (s : Scan) : Type 0 where
  bound : units s.counts ≤ n

choose : (b : Bool) (n : ℕ) (x y : Scan) → Within n x → Within n y → Within n (if b then x else y)
choose true n x y h k = h
choose false n x y h k = k

scan_rune-Within : (u : Unicode) (r : ℕ) (s : Scan) → Within (units s.counts + 1) (scan_rune u r s)
unfolding scan_rune
scan_rune-Within u r s =
    let c = s.counts in
    let one_more : (d : Counts)
        → units d ≡ units s.counts + 1
        → Within (units s.counts + 1) (outside d s) =
      λ d h. record { bound = omega (arith, h) } in
    choose _ _ _ _ (one_more (record c { newline = c.newline + 1 }) (omega arith)) (
      choose _ _ _ _ (one_more (record c { space = c.space + 1 }) (omega arith)) (
        choose _ _ _ _ (one_more (record c { at_sign = c.at_sign + 1 }) (omega arith)) (
          choose _ _ _ _ (one_more (record c { cjk = c.cjk + 1 }) (omega arith)) (
            choose _ _ _ _ (record { bound = on_digit-units s })
              (choose _ _ _ _ (record { bound = on_letter-units s })
                (choose _ _ _ _ (one_more (record c { math = c.math + 1 }) (omega arith)) (
                  choose _ _ _ _ (one_more (record c { emoji = c.emoji + 1 }) (omega arith)) (
                    choose _ _ _ _
                      (one_more (record c { url_delim = c.url_delim + 1 }) (omega arith))
                      (one_more (record c { symbol = c.symbol + 1 }) (omega arith))))))))))

scan_text-units :
    (u : Unicode) (rs : Text) (s : Scan)
    → units (scan_text u rs s).counts ≤ units s.counts + length rs
unfolding scan_text
scan_text-units u [] s = omega arith
scan_text-units u (r ∷ rs) s =
    let h = scan_rune-Within u r s in
    let b = h.bound in let rest = scan_text-units u rs (scan_rune u r s) in omega (arith, b, rest)

-- Whatever the classes of the package unicode are, the words, numbers, symbols and the other units that
-- are counted in a text are together at most its runes.
pub scan_text_bound :
    (u : Unicode) (rs : Text) → units (scan_text u rs fresh_scan).counts ≤ length rs
scan_text_bound u rs = let h = scan_text-units u rs fresh_scan in omega (arith, h)
