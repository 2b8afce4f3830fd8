-- ===== src/Base/Sets.antt =====
-- Finite sets of numbers: lists without repetition, of which only the members count.
use Prim.Native.Nat.{ℕ}
use mathlib.Core.Path.{◌≡◌}
use mathlib.Core.Bool.{Bool}
use mathlib.Core.List.{List}
use mathlib.Core.Quot
use mathlib.Core.Quot.{Quot, Quot-set}
use native.Mathlib.Nat.{ℕ_set}
use line_proof.Base.Lists.{length, contains}
use line_proof.Base.Distinct.{IsDistinct, length-same}

abbrev pub Listing : Type 0
Listing = (xs : List ℕ) × IsDistinct xs

abbrev pub HasSameMembers : Listing → Listing → Type 0
HasSameMembers a b = (i : ℕ) → contains i a.0 ≡ contains i b.0

abbrev pub FiniteSet : Type 0
FiniteSet = Quot HasSameMembers

abbrev pub set_of : (xs : List ℕ) → IsDistinct xs → FiniteSet
set_of xs d = Quot.mk (xs, d)

abbrev pub is_member : ℕ → FiniteSet → Bool
is_member i = Quot.lift (hlevel) (λ a. contains i a.0) (λ a b h. h i)

-- The number of members does not depend on the listing.
abbrev pub size : FiniteSet → ℕ
size = Quot.lift ℕ_set (λ a. length a.0) (λ a b h. length-same a.0 b.0 a.1 b.1 h)

-- A set is determined by its members.
pub FiniteSet-ext : (x y : FiniteSet) → ((i : ℕ) → is_member i x ≡ is_member i y) → x ≡ y
FiniteSet-ext =
    Quot.ind (λ x. hlevel Quot-set) (λ a. Quot.ind (λ y. hlevel Quot-set) (λ b h. Quot.sound h))
