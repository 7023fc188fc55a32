-- ===== src/Base/Search.antt =====
-- `strstr` finds the first place.
use Prim.Native.Nat.{ℕ, suc, ◌≤◌}
use mathlib.Core.Path.{◌≡◌, refl, ap, ◌∙◌, sym}
use mathlib.Core.Bool.{Bool, true, false, ◌&&◌}
use mathlib.Core.Option.{Option, none, some}
use mathlib.Core.Option
use mathlib.Core.List.{List, [], ◌∷◌, ◌++◌, append_assoc}
use mathlib.Core.Logic.{inl, inr}
use native.Mathlib.Omega.{arith}
use npacn_fisac.Base.Tests.{◌==◌, if◌then◌else◌, Bool-cases}
use npacn_fisac.Base.Lists.{length, length-append}
use npacn_fisac.Base.CText.{starts_with, strstr}

starts_with_self : (p s : List ℕ) → starts_with (p ++ s) p ≡ true
unfolding starts_with
starts_with_self [] [] = refl
starts_with_self [] (c ∷ s) = refl
starts_with_self (c ∷ p) s = let rest = starts_with_self p s in ground (arith, rest)

-- Whether `p` stands at the front depends on as many characters as it has.
starts_with-append :
    (s t p : List ℕ) → length p ≤ length s → starts_with (s ++ t) p ≡ starts_with s p
unfolding starts_with
starts_with-append [] [] [] h = refl
starts_with-append [] (c ∷ t) [] h = refl
starts_with-append (c ∷ s) t [] h = refl
starts_with-append [] t (d ∷ p) h = absurd (omega arith)
starts_with-append (c ∷ s) t (d ∷ p) h =
    ap (λ (b : Bool). (c == d) && b) (starts_with-append s t p (omega arith))

tail_none :
    (b : Bool) (o : Option ℕ)
    → b ≡ false
    → (if b then some 0 else Option.map suc o) ≡ none
    → o ≡ none
tail_none true o e h = cc
tail_none false none e h = refl
tail_none false (some n) e h = cc

-- A text that does not occur before is found where it stands. `q` is the text without its last
-- character, so that an occurrence that overlaps with it is ruled out too.
pub strstr-append :
    (a q post : List ℕ) (z : ℕ)
    → strstr (a ++ q) (q ++ (z ∷ [])) ≡ none
    → strstr (a ++ ((q ++ (z ∷ [])) ++ post)) (q ++ (z ∷ [])) ≡ some (length a)
unfolding strstr
strstr-append [] [] post z h = rw (starts_with_self (z ∷ []) post) refl
strstr-append [] (c ∷ q) post z h = rw (starts_with_self ((c ∷ q) ++ (z ∷ [])) post) refl
strstr-append (x ∷ a) q post z h = elim (Bool-cases (starts_with ((x ∷ a) ++ q) (q ++ (z ∷ [])))) [
  | inl here ↦ absurd (found here h)
  | inr elsewhere ↦
      rw (front ∙ elsewhere) (ap (Option.map suc) (strstr-append a q post z (later elsewhere h)))
]
  where
    p : List ℕ
    p = q ++ (z ∷ [])

    found : starts_with ((x ∷ a) ++ q) p ≡ true → strstr ((x ∷ a) ++ q) p ≡ none → ⊥
    found here e = ground arith

    later :
        starts_with ((x ∷ a) ++ q) p ≡ false
        → strstr ((x ∷ a) ++ q) p ≡ none
        → strstr (a ++ q) p ≡ none
    later elsewhere e = tail_none _ (strstr (a ++ q) p) elsewhere e

    front : starts_with ((x ∷ a) ++ (p ++ post)) p ≡ starts_with ((x ∷ a) ++ q) p
    front =
        ap (λ (l : List ℕ). starts_with ((x ∷ a) ++ l) p) (append_assoc q (z ∷ []) post)
        ∙ ap (λ (l : List ℕ). starts_with l p) (sym (append_assoc (x ∷ a) q ((z ∷ []) ++ post)))
        ∙ starts_with-append ((x ∷ a) ++ q) ((z ∷ []) ++ post) p
            (omega (arith, length-append q (z ∷ []), length-append (x ∷ a) q))
