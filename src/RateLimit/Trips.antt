-- ===== src/RateLimit/Trips.antt =====
-- Window.Fail forgets times as it goes, and answers as if it kept them all.
use manager.Prelude.{
  ℕ, suc, ◌+◌, ◌∙◌, length-append, ◌≤◌, ◌≡◌, refl, Bool, true, false, List, [], ◌∷◌, ◌++◌, ltb, leb,
  if◌then◌else◌, keep, length, arith, Bool-cases, inl, inr, ap, nat_eq,
}
use manager.RateLimit.{Window, new_window, recent, fail_at, fail_window}

keep-append : (p : ℕ → Bool) (xs ys : List ℕ) → keep p (xs ++ ys) ≡ keep p xs ++ keep p ys
unfolding keep
keep-append p [] ys = refl
keep-append p (x ∷ xs) ys = ground (arith, keep-append p xs ys)

recent-recent :
    (now later window : ℕ) (xs : List ℕ)
    → now ≤ later
    → recent later window (recent now window xs) ≡ recent later window xs
unfolding recent keep
recent-recent now later window [] h = refl
recent-recent now later window (x ∷ xs) h = ground (arith, recent-recent now later window xs h)

-- The answers of the window to failures at the given times.
unfoldable pub answers : Window → List ℕ → List Bool
answers w [] = []
answers w (now ∷ times) = (fail_window now w).1 ∷ answers (fail_window now w).0 times

-- How many of the failures happened less than the window before now.
unfoldable pub within : ℕ → ℕ → List ℕ → ℕ
within now window [] = 0
within now window (t ∷ times) =
    let rest = within now window times in if ltb now (t + window) then suc rest else rest

length-recent :
    (now window : ℕ) (times : List ℕ) → length (recent now window times) ≡ within now window times
unfolding recent keep within
length-recent now window [] = refl
length-recent now window (t ∷ times) = ground (arith, length-recent now window times)

reaches :
    (limit now window : ℕ) (times : List ℕ)
    → leb limit (length (recent now window times ++ now ∷ []))
      ≡ leb limit (suc (within now window times))
reaches limit now window times = ap (leb limit) (
    length-append (recent now window times) (now ∷ [])
    ∙ omega (arith, length-recent now window times))

-- The answers of a limiter that keeps every failure since the last trip and counts those in the window.
unfoldable pub expected : ℕ → ℕ → List ℕ → List ℕ → List Bool
expected limit window history [] = []
expected limit window history (now ∷ times) =
    let tripped = leb limit (suc (within now window history)) in
    tripped ∷ expected limit window (if tripped then [] else history ++ now ∷ []) times

-- Times that do not go back.
abbrev pub Ordered : ℕ → List ℕ → Type 0
Ordered from [] = Unit
Ordered from (now ∷ times) = (from ≤ now) × Ordered now times

Agree : ℕ → Window → List ℕ → Type 0
Agree from w history =
    (later : ℕ) → from ≤ later → recent later w.window w.times ≡ recent later w.window history

module _ (limit window : ℕ) where
  kept-Agree :
      (from now : ℕ) (times history : List ℕ)
      → from ≤ now
      → Agree from (record { limit = limit; window = window; times = times }) history
      → Agree now
          (record { limit = limit; window = window; times = recent now window times ++ now ∷ [] })
          (history ++ now ∷ [])
  unfolding Agree
  kept-Agree from now times history h a later k =
      rw
        (
          split later (recent now window times) (now ∷ []),
          split later history (now ∷ []),
          recent-recent now later window times k,
          a later (omega arith),
        )
        refl
    where
      split :
          (later : ℕ) (xs ys : List ℕ)
          → recent later window (xs ++ ys) ≡ recent later window xs ++ recent later window ys
      split later xs ys = unfold recent in keep-append (λ t. ltb later (t + window)) xs ys

  answers-expected :
      (from : ℕ) (times history coming : List ℕ)
      → Ordered from coming
      → Agree from (record { limit = limit; window = window; times = times }) history
      → answers (record { limit = limit; window = window; times = times }) coming
        ≡ expected limit window history coming
  unfolding answers expected fail_window recent fail_at
  answers-expected from times history [] o a = refl
  answers-expected from times history (now ∷ coming) o a =
      elim (Bool-cases (leb limit (suc (within now window history)))) [
        | inl e ↦
            rw (fail_window, same, fail_at, reaches limit now window history, e)
              (ap (λ bs. true ∷ bs)
                (answers-expected now [] [] coming o.1 (unfold Agree in λ later k. refl)))
        | inr e ↦
            rw (fail_window, same, fail_at, reaches limit now window history, e)
              (ap (λ bs. false ∷ bs)
                (answers-expected now (recent now window history ++ now ∷ []) (history ++ now ∷ [])
                  coming o.1 (rw (← same) (kept-Agree from now times history o.0 a))))
      ]
    where
      same : recent now window times ≡ recent now window history
      same = agreed a
        where
          agreed :
              Agree from (record { limit = limit; window = window; times = times }) history
              → recent now window times ≡ recent now window history
          agreed b = unfold Agree in b now o.0

-- For failures at times that do not go back, a new window trips exactly when the failures since the last
-- trip that are less than the window old, this one included, reach the limit.
pub answers-new_window :
    (limit window : ℕ) (coming : List ℕ)
    → Ordered 0 coming
    → answers (new_window limit window) coming ≡ expected limit window [] coming
unfolding new_window
answers-new_window limit window coming o =
    answers-expected limit window 0 [] [] coming o (unfold Agree in λ later k. refl)
