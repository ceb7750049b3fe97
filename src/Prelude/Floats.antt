-- ===== src/Prelude/Floats.antt =====
-- IEEE doubles, which the language of the proofs has not: a type and the operations that the
-- program calls, taken as a parameter.
use mathlib.Core.Bool.{Bool, true, false}
use mathlib.Core.List.{List}
use Prim.Native.Nat.{ℕ}

-- `lt`, `le` and `eq` are the operators <, <= and == of C++; `print` is what `ostream << double`
-- writes and `to_string` is std::to_string. No law of them is assumed.
pub record Doubles : Type 1 where
  pub Double : Type 0
  pub lt : Double → Double → Bool
  pub le : Double → Double → Bool
  pub eq : Double → Double → Bool
  pub print : Double → List ℕ
  pub to_string : Double → List ℕ

-- The arithmetic of one floating-point type: `dec m k` is the literal m / 10 ^ k, and `of_nat` what
-- an int is converted to. No law of it is assumed here.
pub record Arithmetic : Type 1 where
  pub Num : Type 0
  pub add : Num → Num → Num
  pub sub : Num → Num → Num
  pub mul : Num → Num → Num
  pub div : Num → Num → Num
  pub lt : Num → Num → Bool
  pub le : Num → Num → Bool
  pub dec : ℕ → ℕ → Num
  pub of_nat : ℕ → Num

-- std::min, std::max and std::clamp.
module _ (R : Arithmetic) where
  open R use {Num, lt}

  abbrev choose : Bool → Num → Num → Num
  choose true a b = a
  choose false a b = b

  abbrev pub fmin : Num → Num → Num
  fmin a b = choose (lt b a) b a

  abbrev pub fmax : Num → Num → Num
  fmax a b = choose (lt a b) b a

  abbrev pub fclamp : Num → Num → Num → Num
  fclamp v lo hi = choose (lt v lo) lo (choose (lt hi v) hi v)
