-- ===== src/Gic/Update/Best.antt =====
-- The loop of `update` finds the first line of the least priority value that can be delivered.
use icewind.Common.{
  ℕ, suc, ◌+◌, ◌≤◌, ◌<◌, ◌≡◌, sym, ◌∙◌, ap, inl, inr, lt-suc_cases, true, false, Option, none, some,
  List, [], ◌∷◌, arith, Bool-cases, length, get_elem?, if◌then◌else◌, ltb, ok, Returns,
  Returns-bind,
}
use icewind.Gic.Defs.{IrqLine, is_candidate, better, find_best}

-- Line `b` comes before line `j` in the order of delivery.
abbrev pub Beats : ℕ → IrqLine → ℕ → IrqLine → Type 0
Beats b best j l = (best.priority ≤ l.priority) × (j < b → best.priority < l.priority)

-- Among the first `n` lines: none can be delivered, or line `b` can, no other that can has a
-- smaller priority value, and those before it have a greater one.
abbrev pub IsBest : List IrqLine → ℕ → Option ℕ → Type 0
IsBest lines n none =
    (j : ℕ) (l : IrqLine) → j < n → get_elem? lines j ≡ some l → is_candidate l ≡ false
IsBest lines n (some b) =
    (best : IrqLine) × (get_elem? lines b ≡ some best)
    × (is_candidate best ≡ true)
    × (b < n)
    × ((j : ℕ) (l : IrqLine)
        → j < n
        → get_elem? lines j ≡ some l
        → is_candidate l ≡ true
        → Beats b best j l)

module _ (lines : List IrqLine) (i : ℕ) (line : IrqLine)
    (here : get_elem? lines i ≡ some line) where
  -- what holds of the lines before `i` and of `line` holds of those before `i + 1`
  split_lt :
      (P : ℕ → IrqLine → Type 0)
      → ((j : ℕ) (l : IrqLine) → j < i → get_elem? lines j ≡ some l → P j l)
      → P i line
      → (j : ℕ) (l : IrqLine) → j < i + 1
      → get_elem? lines j ≡ some l
      → P j l
  split_lt P before now j l h e = elim (lt-suc_cases j i h) [
    | inl lt ↦ before j l lt e
    | inr eq ↦ let same : l ≡ line = cc in rw (eq, same) now
  ]

  better-IsBest :
      (best : Option ℕ)
      → is_candidate line ≡ true
      → IsBest lines i best
      → Returns (better lines i line best) (IsBest lines (i + 1))
  unfolding better
  better-IsBest none c h = (
    line,
    here,
    c,
    omega arith,
    split_lt (λ j l. is_candidate l ≡ true → Beats i line j l)
        (λ j l lt e d. absurd (cc (h j l lt e))) (λ d. (omega arith, omega arith)),
  )
  better-IsBest (some b) c (best, at_b, cand, lt, least) =
      rw at_b (elim (Bool-cases (ltb line.priority best.priority)) [
        | inl less ↦ rw less (
          line,
          here,
          c,
          omega arith,
          split_lt (λ j l. is_candidate l ≡ true → Beats i line j l)
              (λ j l lt' e d. let (p, q) = least j l lt' e d in (ground arith, λ _. ground arith))
              (λ d. (omega arith, omega arith)),
        )
        | inr more ↦ rw more (
          best,
          at_b,
          cand,
          omega arith,
          split_lt (λ j l. is_candidate l ≡ true → Beats b best j l) least
              (λ d. (ground arith, λ q. absurd (omega arith))),
        )
      ])

  skip-IsBest :
      (best : Option ℕ)
      → is_candidate line ≡ false
      → IsBest lines i best
      → IsBest lines (i + 1) best
  skip-IsBest none c h = split_lt (λ j l. is_candidate l ≡ false) h c
  skip-IsBest (some b) c (best, at_b, cand, lt, least) = (
    best,
    at_b,
    cand,
    omega arith,
    split_lt (λ j l. is_candidate l ≡ true → Beats b best j l) least (λ d. absurd (cc)),
  )

  step-IsBest :
      (best : Option ℕ)
      → IsBest lines i best
      → Returns
          (if is_candidate line then better lines i line best else ok best)
          (IsBest lines (i + 1))
  step-IsBest best h = elim (Bool-cases (is_candidate line)) [
    | inl c ↦ rw c (better-IsBest best c h)
    | inr c ↦ rw c (skip-IsBest best c h)
  ]

-- `rest` is what `lines` holds from index `i` on.
abbrev IsFrom : List IrqLine → ℕ → List IrqLine → Type 0
IsFrom lines i rest = (k : ℕ) → get_elem? rest k ≡ get_elem? lines (i + k)

find_from-IsBest :
    (lines : List IrqLine) (i n : ℕ) (best : Option ℕ) (rest : List IrqLine)
    → IsFrom lines i rest
    → i + length rest ≡ n
    → IsBest lines i best
    → Returns (find_best lines i best rest) (IsBest lines n)
unfolding find_best
find_from-IsBest lines i n best [] from e h = let e' : i ≡ n = omega arith in rw (← e') h
find_from-IsBest lines i n best (line ∷ rest) from e h =
    Returns-bind _ (λ best'. find_best lines (i + 1) best' rest) (IsBest lines (i + 1))
      (IsBest lines n) (step-IsBest lines i line here best h)
      (λ best' h'. find_from-IsBest lines (i + 1) n best' rest after (omega arith) h')
  where
    here : get_elem? lines i ≡ some line
    here = ap (get_elem? lines) (omega arith) ∙ sym (from 0)

    after : IsFrom lines (i + 1) rest
    after k = from (suc k) ∙ ap (get_elem? lines) (omega arith)

-- The loop finds the line that comes first, or none if none can be delivered.
pub find_best-IsBest :
    (lines : List IrqLine) → Returns (find_best lines 0 none lines) (IsBest lines (length lines))
find_best-IsBest lines =
    find_from-IsBest lines 0 (length lines) none lines (λ k. ap (get_elem? lines) (omega arith))
      (omega arith) (λ j l lt e. absurd (omega arith))
