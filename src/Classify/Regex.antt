-- ===== src/Classify/Regex.antt =====
-- The part of Go's `regexp` that internal/router/failure.go uses: unanchored search for a pattern of
-- literals, classes, options, alternatives and `.*`, by derivatives.
use token_route.Base.{ℕ, Bool, true, false, ◌&&◌, ◌||◌, List, [], ◌∷◌, any, ◌==◌, if◌then◌else◌}
use token_route.Base.Text.{Text}

pub data Regex : Type 0 where
  nothing : Regex
  empty : Regex
  one_of : List ℕ → Regex
  dot : Regex
  seq : Regex → Regex → Regex
  alt : Regex → Regex → Regex
  star : Regex → Regex

unfoldable pub nullable : Regex → Bool
nullable nothing = false
nullable empty = true
nullable (one_of cs) = false
nullable dot = false
nullable (seq r s) = nullable r && nullable s
nullable (alt r s) = nullable r || nullable s
nullable (star r) = true

-- What is left to match behind one character; `.` is any but a line feed.
unfoldable pub derive : ℕ → Regex → Regex
unfolding nullable
derive c nothing = nothing
derive c empty = nothing
derive c (one_of cs) = if any (λ d. d == c) cs then empty else nothing
derive c dot = if c == 10 then nothing else empty
derive c (seq r s) =
    let left = seq (derive c r) s in
    let right = derive c s in if nullable r then alt left right else left
derive c (alt r s) = alt (derive c r) (derive c s)
derive c (star r) = seq (derive c r) (star r)

-- Some beginning of the text matches.
unfoldable pub match_here : Regex → Text → Bool
unfolding nullable derive
match_here r [] = nullable r
match_here r (c ∷ s) = nullable r || match_here (derive c r) s

-- `re.MatchString(s)`
unfoldable pub match_string : Regex → Text → Bool
unfolding match_here
match_string r [] = match_here r []
match_string r (c ∷ s) = match_here r (c ∷ s) || match_string r s

abbrev pub lit : Text → Regex
lit [] = empty
lit (c ∷ s) = seq (one_of (c ∷ [])) (lit s)

abbrev pub opt : Regex → Regex
opt r = alt empty r

abbrev pub alts : Regex → List Regex → Regex
alts r [] = r
alts r (s ∷ rs) = alt r (alts s rs)
