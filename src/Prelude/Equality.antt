-- ===== src/Prelude/Equality.antt =====
-- Equality tests as an interface, for the keys of dictionaries.
use Prim.Native.String.{String}
use text.Mathlib.Text.{◌==◌ as str_eq}
use text.Mathlib.TextEquality.{eq_iff}
use mathlib.Core.Path.{◌≡◌}
use mathlib.Core.Logic.{◌↔◌}
use mathlib.Core.Bool.{Bool, true, false, ◌&&◌}
use mathlib.Core.List.{List, [], ◌∷◌}
use native.Mathlib.Omega.{arith}
use Prim.Native.Nat.{ℕ}
use endweave.Prelude.Tests.{◌==◌ as nat_eqb, ==_iff}
use endweave.Prelude.Int.{ℤ, pos, negsuc, eqb_ℤ}

pub record Eq {ℓ} (A : Type ℓ) : Type ℓ where
  pub beq : A → A → Bool
  pub beq_iff : (a b : A) → (beq a b ≡ true) ↔ (a ≡ b)

instance abbrev pub nat_eq : Eq ℕ
nat_eq = record { beq = nat_eqb; beq_iff = ==_iff }

instance abbrev pub string_eq : Eq String
string_eq = record { beq = str_eq; beq_iff = eq_iff }

pub eqb_ℤ_iff : (a b : ℤ) → (eqb_ℤ a b ≡ true) ↔ (a ≡ b)
eqb_ℤ_iff (pos a) (pos b) = ground arith
eqb_ℤ_iff (pos a) (negsuc b) = ground arith
eqb_ℤ_iff (negsuc a) (pos b) = ground arith
eqb_ℤ_iff (negsuc a) (negsuc b) = ground arith

instance abbrev pub int_eq : Eq ℤ
int_eq = record { beq = eqb_ℤ; beq_iff = eqb_ℤ_iff }

-- Version pairs.
abbrev pub eqb_pair : ℤ × ℤ → ℤ × ℤ → Bool
eqb_pair a b = eqb_ℤ a.0 b.0 && eqb_ℤ a.1 b.1

pub eqb_pair_iff : (a b : ℤ × ℤ) → (eqb_pair a b ≡ true) ↔ (a ≡ b)
eqb_pair_iff (a, b) (c, d) = ground (arith, eqb_ℤ_iff a c, eqb_ℤ_iff b d)

instance abbrev pub pair_eq : Eq (ℤ × ℤ)
pair_eq = record { beq = eqb_pair; beq_iff = eqb_pair_iff }

-- Texts as lists of code points.
abbrev pub eqb_list : List ℕ → List ℕ → Bool
eqb_list [] [] = true
eqb_list (a ∷ xs) (b ∷ ys) = nat_eqb a b && eqb_list xs ys
eqb_list _ _ = false

pub eqb_list_iff : (a b : List ℕ) → (eqb_list a b ≡ true) ↔ (a ≡ b)
eqb_list_iff [] [] = ground arith
eqb_list_iff [] (b ∷ bs) = ground arith
eqb_list_iff (a ∷ xs) [] = ground arith
eqb_list_iff (a ∷ xs) (b ∷ ys) = ground (arith, eqb_list_iff xs ys)

instance abbrev pub list_eq : Eq (List ℕ)
list_eq = record { beq = eqb_list; beq_iff = eqb_list_iff }
