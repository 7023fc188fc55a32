-- ===== src/Base/Keeping.antt =====
-- Runs that keep what holds of the state: the rules for the parts of a program.
use mathlib.Core.Bool.{Bool, true, false}
use npacn_fisac.Base.Tests.{if◌then◌else◌}
use npacn_fisac.Base.Runs.{M, stuck, ◌>>=◌, ◌>>◌, return, call, perform}
use npacn_fisac.Base.Runs.{Ends, clean, out_of_fuel, Ends-bind}

-- From a state in `I` the run faults only where `F` holds, uses up its fuel only where `G` holds, and ends
-- in `I` otherwise.
module _ {S : Type 0} (F G : Type 0) (I : S → Type 0) where
  abbrev pub Keep : {A : Type 0} → M S A → Type 0
  Keep {A} m = (s : S) → I s → Ends F G (λ (a : A) (after : S). I after) (m s)

  pub return-Keep : {A : Type 0} (a : A) → Keep (return a)
  return-Keep a s h = clean h

  pub stuck-Keep : {A : Type 0} → G → Keep {A = A} (λ s. stuck)
  stuck-Keep g s h = out_of_fuel g

  pub perform-Keep : (f : S → S) → ((s : S) → I s → I (f s)) → Keep (perform f)
  perform-Keep f keep s h = clean (keep s h)

  pub call-Keep : {A : Type 0} (f : S → A × S) → ((s : S) → I s → I (f s).1) → Keep (call f)
  call-Keep f keep s h = clean (keep s h)

  pub bind-Keep :
      {A B : Type 0} (m : M S A) (k : A → M S B) → Keep m → ((a : A) → Keep (k a)) → Keep (m >>= k)
  bind-Keep m k h f s start = Ends-bind (λ a after. I after) (h s start) f

  pub then-Keep : {A B : Type 0} (m : M S A) (k : M S B) → Keep m → Keep k → Keep (m >> k)
  then-Keep m k h f = bind-Keep m (λ a. k) h λ a. f

  pub if-Keep : {A : Type 0} (b : Bool) (x y : M S A) → Keep x → Keep y → Keep (if b then x else y)
  if-Keep true x y p q = p
  if-Keep false x y p q = q

  -- The test of a loop, which stands inside.
  pub loop-Keep :
      {A : Type 0} (b : Bool) (x y : M S A) → Keep x → Keep y → Keep (λ s. if b then x s else y s)
  loop-Keep true x y p q = p
  loop-Keep false x y p q = q
