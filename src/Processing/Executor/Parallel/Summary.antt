-- ===== src/Processing/Executor/Parallel/Summary.antt =====
-- What the loop over the outcomes of a group comes to.
use modern_data_platform.Prelude.{
  ℕ, zero, suc, ◌-◌, ◌≤◌, ◌≡◌, ◌⊎◌, inl, inr, refl, ap, sym, Bool, true, false, none, List, [], ◌∷◌,
  ◌++◌, length, length-append, any, any-append, drop, arith, ◌||◌,
}
use modern_data_platform.Processing.Outcome.{Outcome, returned, raised, out_of_fuel}
use modern_data_platform.Processing.Core.Results.{StageResult, succeeded}
use modern_data_platform.Processing.Executor.Sequential.Progress.{is_bad}
use modern_data_platform.Processing.Executor.Parallel.Groups.{Collected, collect, last_n}
use modern_data_platform.Processing.Executor.Parallel.Gather.{AllEnded}

-- The results of a group of `n` members, and why it cancels.
pub record Summed (n : ℕ) (c : Collected) : Type 0 where
  pub at_most : length c.results ≤ n
  pub whole : c.technical_failure ≡ none → length c.results ≡ n
  pub blamed : c.cancelled ≡ true → any is_bad c.results ≡ true

blame :
    (cancel cancelled : Bool) (r : StageResult) (rs : List StageResult)
    → (cancel ≡ false) ⊎ (succeeded r.base ≡ false)
    → (cancelled ≡ true → any is_bad rs ≡ true)
    → cancel || cancelled ≡ true
    → is_bad r || any is_bad rs ≡ true
blame cancel cancelled r rs (inl never) rest h = ground (arith, rest (ground arith))
blame cancel cancelled r rs (inr bad) rest h = rw bad refl

pub collect-Summed :
    (os : List (Outcome (StageResult × Bool))) → AllEnded os → Summed (length os) (collect os)
unfolding collect
collect-Summed [] h = record { at_most = omega arith; whole = λ _. refl; blamed = λ e. cc }
collect-Summed (returned (r, cancel) ∷ os) h =
    let rest = collect-Summed os h.1 in
    record {
      at_most = omega (arith, rest.at_most);
      whole = λ e. ap suc (rest.whole e);
      blamed = blame cancel (collect os).cancelled r (collect os).results h.0 rest.blamed;
    }
collect-Summed (raised e ∷ os) h =
    let rest = collect-Summed os h.1 in
    record { at_most = omega (arith, rest.at_most); whole = λ q. cc; blamed = rest.blamed }
collect-Summed (out_of_fuel ∷ os) h = absurd h.0

drop-length : (n : ℕ) (xs ys : List StageResult) → length xs ≡ n → drop n (xs ++ ys) ≡ ys
drop-length zero [] ys h = refl
drop-length zero (x ∷ xs) ys h = absurd (omega (arith, h))
drop-length (suc n) [] ys h = absurd (omega (arith, h))
drop-length (suc n) (x ∷ xs) ys h = drop-length n xs ys (omega (arith, h))

-- The results of the last group tell whether a failure is tolerated from here on.
pub any-last_n :
    (n : ℕ) (rs new : List StageResult)
    → length new ≡ n
    → any is_bad rs || any is_bad (last_n n (rs ++ new)) ≡ any is_bad (rs ++ new)
any-last_n zero rs [] h = ground (arith, any-append is_bad rs [])
any-last_n zero rs (r ∷ new) h = absurd (omega (arith, h))
any-last_n (suc n) rs new h =
    let e : drop (length (rs ++ new) - suc n) (rs ++ new) ≡ new =
      drop-length (length (rs ++ new) - suc n) rs new (omega (arith, length-append rs new, h)) in
    rw e (sym (any-append is_bad rs new))
