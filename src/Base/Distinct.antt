-- ===== src/Base/Distinct.antt =====
-- Lists of numbers without repetition, and what appending and removing do to them.
use Prim.Native.Nat.{ℕ, ◌≤◌, ◌+◌}
use mathlib.Core.Path.{◌≡◌, refl, subst}
use mathlib.Core.Bool.{false, true, ◌||◌}
use mathlib.Core.List.{List, [], ◌∷◌, ◌++◌}
use native.Mathlib.Omega.{arith}
use native.Mathlib.Decide.{ℕ_discrete}
use line_proof.Base.Tests.{◌==◌, if◌then◌else◌}
use line_proof.Base.Lists.{length, contains, without}

-- No entry stands twice.
abbrev pub IsDistinct : List ℕ → Type 0
IsDistinct [] = Unit {0}
IsDistinct (x ∷ xs) = (contains x xs ≡ false) × IsDistinct xs

pub contains-append :
    (a b : ℕ) (xs : List ℕ) → contains a (xs ++ b ∷ []) ≡ (b == a || contains a xs)
contains-append a b [] = refl
contains-append a b (x ∷ xs) = ground (arith, contains-append a b xs)

pub contains-without :
    (a b : ℕ) (xs : List ℕ) → contains a (without b xs) ≡ (if b == a then false else contains a xs)
contains-without a b [] = ground arith
contains-without a b (x ∷ xs) = ground (arith, contains-without a b xs)

pub append-IsDistinct :
    (b : ℕ) (xs : List ℕ) → IsDistinct xs → contains b xs ≡ false → IsDistinct (xs ++ b ∷ [])
append-IsDistinct b [] d n = (refl, tt)
append-IsDistinct b (x ∷ xs) d n =
    (ground (arith, contains-append x b xs, d.0), append-IsDistinct b xs d.1 (ground arith))

kept-IsDistinct :
    (x b : ℕ) (xs : List ℕ)
    → IsDistinct (x ∷ xs)
    → IsDistinct (without b xs)
    → IsDistinct (x ∷ without b xs)
kept-IsDistinct x b xs d rest = (ground (arith, contains-without x b xs, d.0), rest)

pub without-IsDistinct : (b : ℕ) (xs : List ℕ) → IsDistinct xs → IsDistinct (without b xs)
without-IsDistinct b [] d = tt
without-IsDistinct b (x ∷ xs) d = elim (ℕ_discrete x b) [
  | yes same ↦ subst IsDistinct {x = without b xs} (ground arith) (without-IsDistinct b xs d.1)
  | no other ↦
      subst IsDistinct {x = x ∷ without b xs} (ground arith)
        (kept-IsDistinct x b xs d (without-IsDistinct b xs d.1))
]

pub length-without : (b : ℕ) (xs : List ℕ) → length (without b xs) ≤ length xs
length-without b [] = omega arith
length-without b (x ∷ xs) = ground (arith, length-without b xs)

pub length-without_none :
    (b : ℕ) (xs : List ℕ) → contains b xs ≡ false → length (without b xs) ≡ length xs
length-without_none b [] n = refl
length-without_none b (x ∷ xs) n = ground (arith, length-without_none b xs (ground arith))

pub length-without_one :
    (b : ℕ) (xs : List ℕ)
    → IsDistinct xs
    → contains b xs ≡ true
    → length (without b xs) + 1 ≡ length xs
length-without_one b [] d has = absurd (cc)
length-without_one b (x ∷ xs) d has = elim (ℕ_discrete x b) [
  | yes same ↦
      ground (arith, length-without_none b xs (subst (λ y. contains y xs ≡ false) same d.0))
  | no other ↦ ground (arith, length-without_one b xs d.1 (ground arith))
]

-- What is left after the first entries.
pub suffix-IsDistinct : (xs ys : List ℕ) → IsDistinct (xs ++ ys) → IsDistinct ys
suffix-IsDistinct [] ys d = d
suffix-IsDistinct (x ∷ xs) ys d = suffix-IsDistinct xs ys d.1

-- Appending a new entry and removing it again.
pub without-append : (b : ℕ) (xs : List ℕ) → contains b xs ≡ false → without b (xs ++ b ∷ []) ≡ xs
without-append b [] n = ground arith
without-append b (x ∷ xs) n = ground (arith, without-append b xs)

-- Two lists without repetition of the same members have the same length.
pub length-same :
    (xs ys : List ℕ)
    → IsDistinct xs
    → IsDistinct ys
    → ((i : ℕ) → contains i xs ≡ contains i ys)
    → length xs ≡ length ys
length-same [] [] d e same = refl
length-same [] (y ∷ ys) d e same = absurd (ground (arith, same y))
length-same (x ∷ xs) ys d e same =
    let on : contains x ys ≡ true = ground (arith, same x) in
    let rest =
      length-same xs (without x ys) d.1 (without-IsDistinct x ys e)
        (λ i. ground (arith, same i, contains-without i x ys, d.0)) in
    omega (arith, rest, length-without_one x ys e on)
