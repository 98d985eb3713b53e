-- ===== src/Base/Atomic.antt =====
-- Atomic words that other processes change too. `Interference` says what the others do before each
-- access of this process, and when a weak compare-exchange fails for no reason.
use Prim.Native.Nat.{ℕ, suc}
use mathlib.Core.Path.{◌≡◌, refl, ◌∙◌}
use mathlib.Core.Bool.{Bool, true, false, not, ◌&&◌}
use mathlib.Core.List.{List}
use inc_mw_com.Base.Tests.{◌==◌, if◌then◌else◌, ==→eq}
use inc_mw_com.Base.Lists.{length, get_or, set}

-- The array never changes its size.
pub record Interference : Type 0 where
  pub others : ℕ → List ℕ → List ℕ
  pub spurious : ℕ → Bool
  pub others_length : (n : ℕ) (ws : List ℕ) → length (others n ws) ≡ length ws

-- An array of atomic words, and the number of accesses made so far.
pub record Words : Type 0 where
  pub words : List ℕ
  pub now : ℕ

-- No other process, and no spurious failure.
abbrev pub alone : Interference
alone = record { others = λ n ws. ws; spurious = λ n. false; others_length = λ n ws. refl }

module _ (env : Interference) where
  -- The array as this process finds it.
  abbrev pub seen : Words → List ℕ
  seen w = env.others w.now w.words

  abbrev pub load : ℕ → Words → ℕ × Words
  load i w = (get_or (seen w) i 0, record { words = seen w; now = suc w.now })

  abbrev pub store : ℕ → ℕ → Words → Words
  store i v w = record { words = set (seen w) i v; now = suc w.now }

  -- What is done to a word in one step, as by fetch_sub.
  abbrev pub fetch_modify : ℕ → (ℕ → ℕ) → Words → Words
  fetch_modify i f w = store i (f (get_or (seen w) i 0)) w

  -- `weak` is false for compare_exchange_strong.
  unfoldable pub compare_exchange : Bool → ℕ → ℕ → ℕ → Words → Bool × Words
  compare_exchange weak i expected desired w =
      if not (weak && env.spurious w.now) && get_or (seen w) i 0 == expected
      then (true, store i desired w)
      else (false, record { words = seen w; now = suc w.now })

  -- The array after an access that writes nothing.
  abbrev pub look : Words → Words
  look w = record { words = seen w; now = suc w.now }

  -- A successful exchange replaced the expected value, and nothing else; a failed one wrote nothing.
  abbrev pub Exchanged : ℕ → ℕ → ℕ → Words → Bool × Words → Type 0
  Exchanged i expected desired w (true, w') =
      (get_or (seen w) i 0 ≡ expected) × (w' ≡ store i desired w)
  Exchanged i expected desired w (false, w') = w' ≡ look w

  pub compare_exchange_lem :
      (weak : Bool) (i expected desired : ℕ) (w : Words)
      → Exchanged i expected desired w (compare_exchange weak i expected desired w)
  unfolding compare_exchange
  compare_exchange_lem weak i expected desired w =
      split (not (weak && env.spurious w.now)) (get_or (seen w) i 0 == expected)
        (==→eq (get_or (seen w) i 0) expected)
    where
      split :
          (b c : Bool)
          → (c ≡ true → get_or (seen w) i 0 ≡ expected)
          → Exchanged i expected desired w (
              if b && c
              then (true, store i desired w)
              else (false, record { words = seen w; now = suc w.now }))
      split true true h = (h refl, refl)
      split true false h = refl
      split false c h = refl

-- What `s` has become after accesses of this process that wrote nothing: all that has changed is what
-- the others have done.
pub data Waited (env : Interference) (s : Words) : Words → Type 0 where
  untouched : Waited env s s
  looked : {w : Words} → Waited env s w → Waited env s (look env w)

pub Waited-length :
    {env : Interference} {s w : Words} → Waited env s w → length w.words ≡ length s.words
Waited-length untouched = refl
Waited-length {env = env} (looked {w = w} h) = env.others_length w.now w.words ∙ Waited-length h
