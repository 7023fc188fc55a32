-- ===== src/Base/Runs.antt =====
-- The effects of the C code: a run over the state of the operating system ends with a value and a
-- new state, meets undefined behaviour, or exhausts the fuel of a loop that has no bound of its own.
use mathlib.Core.Path.{◌≡◌, refl, subst}

pub data Outcome (S A : Type 0) : Type 0 where
  done : A → S → Outcome S A
  fault : Outcome S A
  stuck : Outcome S A

infixl 5 ◌▷◌
abbrev pub ◌▷◌ : {S A B : Type 0} → Outcome S A → (A → S → Outcome S B) → Outcome S B
done a s ▷ k = k a s
fault ▷ k = fault
stuck ▷ k = stuck

abbrev pub M : Type 0 → Type 0 → Type 0
M S A = S → Outcome S A

infixl 5 ◌>>=◌ ◌>>◌
abbrev pub ◌>>=◌ : {S A B : Type 0} → M S A → (A → M S B) → M S B
◌>>=◌ m f s = m s ▷ f

abbrev pub ◌>>◌ : {S A B : Type 0} → M S A → M S B → M S B
◌>>◌ m k s = m s ▷ λ _. k

abbrev pub return : {S A : Type 0} → A → M S A
return a s = done a s

-- A call of the operating system that always returns.
abbrev pub call : {S A : Type 0} → (S → A × S) → M S A
call f s = let (a, s') = f s in done a s'

-- A call with no result.
abbrev pub perform : {S : Type 0} → (S → S) → M S (Unit {0})
perform f s = done tt (f s)

-- Total correctness: the run returns, and its value and final state meet `P`.
pub data Ensures {S A : Type 0} (P : A → S → Type 0) : Outcome S A → Type 0 where
  returns : {a : A} {s : S} → P a s → Ensures P (done a s)

pub Ensures-bind :
    {S A B : Type 0} (P : A → S → Type 0) {Q : B → S → Type 0} {k : A → S → Outcome S B}
    {o : Outcome S A}
    → Ensures P o
    → ((a : A) (s : S) → P a s → Ensures Q (k a s))
    → Ensures Q (o ▷ k)
Ensures-bind P (returns {a} {s} p) f = f a s p

pub Ensures-mono :
    {S A : Type 0} {P Q : A → S → Type 0} {o : Outcome S A}
    → Ensures P o
    → ((a : A) (s : S) → P a s → Q a s)
    → Ensures Q o
Ensures-mono (returns {a} {s} p) f = returns (f a s p)

-- Every value and final state that the run can end with meets `P`.
pub data Keeps {S A : Type 0} (P : A → S → Type 0) : Outcome S A → Type 0 where
  kept : {a : A} {s : S} → P a s → Keeps P (done a s)
  at_fault : Keeps P fault
  at_stuck : Keeps P stuck

pub Keeps-bind :
    {S A B : Type 0} (P : A → S → Type 0) {Q : B → S → Type 0} {k : A → S → Outcome S B}
    {o : Outcome S A}
    → Keeps P o
    → ((a : A) (s : S) → P a s → Keeps Q (k a s))
    → Keeps Q (o ▷ k)
Keeps-bind P (kept {a} {s} h) f = f a s h
Keeps-bind P at_fault f = at_fault
Keeps-bind P at_stuck f = at_stuck

-- What comes first in a sequence is of no matter here.
pub Keeps-after :
    {S A B : Type 0} {Q : B → S → Type 0} {k : A → S → Outcome S B} (o : Outcome S A)
    → ((a : A) (s : S) → Keeps Q (k a s))
    → Keeps Q (o ▷ k)
Keeps-after (done a s) f = f a s
Keeps-after fault f = at_fault
Keeps-after stuck f = at_stuck

-- The run meets undefined behaviour only where `F` holds, uses up its fuel only where `G` holds, and
-- every value and final state that it can end with meets `P`.
pub data Ends {S A : Type 0} (F G : Type 0) (P : A → S → Type 0) : Outcome S A → Type 0 where
  clean : {a : A} {s : S} → P a s → Ends F G P (done a s)
  faulty : F → Ends F G P fault
  out_of_fuel : G → Ends F G P stuck

pub Ends-bind :
    {S A B : Type 0} {F G : Type 0} (P : A → S → Type 0) {Q : B → S → Type 0}
    {k : A → S → Outcome S B} {o : Outcome S A}
    → Ends F G P o
    → ((a : A) (s : S) → P a s → Ends F G Q (k a s))
    → Ends F G Q (o ▷ k)
Ends-bind P (clean {a} {s} h) f = f a s h
Ends-bind P (faulty x) f = faulty x
Ends-bind P (out_of_fuel g) f = out_of_fuel g

pub Ends-mono :
    {S A : Type 0} {F G : Type 0} {P Q : A → S → Type 0} {o : Outcome S A}
    → Ends F G P o
    → ((a : A) (s : S) → P a s → Q a s)
    → Ends F G Q o
Ends-mono (clean {a} {s} h) f = clean (f a s h)
Ends-mono (faulty x) f = faulty x
Ends-mono (out_of_fuel g) f = out_of_fuel g

pub Ensures-Ends :
    {S A : Type 0} {F G : Type 0} {P Q : A → S → Type 0} {o : Outcome S A}
    → Ensures P o
    → ((a : A) (s : S) → P a s → Q a s)
    → Ends F G Q o
Ensures-Ends (returns {a} {s} p) f = clean (f a s p)

-- No word of fuel.
abbrev pub Clean : {S A : Type 0} → Type 0 → (A → S → Type 0) → Outcome S A → Type 0
Clean F P o = Ends F (Unit {0}) P o

pub Clean-Keeps :
    {S A : Type 0} {F : Type 0} {P Q : A → S → Type 0} {o : Outcome S A}
    → Clean F P o
    → ((a : A) (s : S) → P a s → Q a s)
    → Keeps Q o
Clean-Keeps (clean {a} {s} h) f = kept (f a s h)
Clean-Keeps (faulty x) f = at_fault
Clean-Keeps (out_of_fuel g) f = at_stuck

-- What holds of all ends of a run by two proofs holds by both.
pub Keeps-both :
    {S A : Type 0} {P Q : A → S → Type 0} {o : Outcome S A}
    → Keeps P o
    → Keeps Q o
    → Keeps (λ a s. P a s × Q a s) o
Keeps-both (kept h) (kept k) = kept (h, k)
Keeps-both at_fault k = at_fault
Keeps-both at_stuck k = at_stuck

-- A run that returns, and what holds of its ends by another proof.
pub Ensures-Clean :
    {S A : Type 0} {F : Type 0} {P Q : A → S → Type 0} {o : Outcome S A}
    → Ensures P o
    → Clean F Q o
    → Ensures (λ a s. P a s × Q a s) o
Ensures-Clean (returns p) (clean q) = returns (p, q)

pub Ensures-both :
    {S A : Type 0} {P Q : A → S → Type 0} {o : Outcome S A}
    → Ensures P o
    → Ensures Q o
    → Ensures (λ a s. P a s × Q a s) o
Ensures-both (returns p) (returns q) = returns (p, q)

-- What holds of all ends of a run by another proof.
pub Ends-Keeps :
    {S A : Type 0} {F G : Type 0} {P Q : A → S → Type 0} {o : Outcome S A}
    → Ends F G P o
    → Keeps Q o
    → Ends F G (λ a s. P a s × Q a s) o
Ends-Keeps (clean p) (kept q) = clean (p, q)
Ends-Keeps (faulty f) at_fault = faulty f
Ends-Keeps (out_of_fuel g) at_stuck = out_of_fuel g

-- A run of which only the fuel is not known.
pub Clean-Ends :
    {S A : Type 0} {F G : Type 0} {P : A → S → Type 0} {o : Outcome S A}
    → Clean ⊥ P o
    → (o ≡ stuck → G)
    → Ends F G P o
Clean-Ends (clean p) give = clean p
Clean-Ends (faulty f) give = absurd f
Clean-Ends (out_of_fuel u) give = out_of_fuel (give refl)

-- A run that can only return.
pub Ends-Ensures :
    {S A : Type 0} {P Q : A → S → Type 0} {o : Outcome S A} → Ends ⊥ ⊥ P o → Keeps Q o → Ensures Q o
Ends-Ensures (clean p) (kept q) = returns q
Ends-Ensures (faulty f) at_fault = absurd f
Ends-Ensures (out_of_fuel g) at_stuck = absurd g

-- What the end of a run meets.
abbrev AtEnd : {S A : Type 0} → (A → S → Type 0) → Outcome S A → Type 0
AtEnd P (done a s) = P a s
AtEnd P fault = Unit
AtEnd P stuck = Unit

Keeps-AtEnd : {S A : Type 0} {P : A → S → Type 0} {o : Outcome S A} → Keeps P o → AtEnd P o
Keeps-AtEnd (kept p) = p
Keeps-AtEnd at_fault = tt
Keeps-AtEnd at_stuck = tt

-- What all ends of a run meet, the one that is known meets.
pub Keeps-done :
    {S A : Type 0} {P : A → S → Type 0} {o : Outcome S A} (a : A) (s : S)
    → Keeps P o
    → o ≡ done a s
    → P a s
Keeps-done {P = P} a s h e = subst (AtEnd P) e (Keeps-AtEnd h)

-- As `Ends-bind`, with the equation that the first run ended so.
pub Ends-bind_eq :
    {S A B : Type 0} {F G : Type 0} (P : A → S → Type 0) {Q : B → S → Type 0}
    {k : A → S → Outcome S B} {o : Outcome S A}
    → Ends F G P o
    → ((a : A) (s : S) → o ≡ done a s → P a s → Ends F G Q (k a s))
    → Ends F G Q (o ▷ k)
Ends-bind_eq P (clean {a} {s} h) f = f a s refl h
Ends-bind_eq P (faulty x) f = faulty x
Ends-bind_eq P (out_of_fuel g) f = out_of_fuel g
