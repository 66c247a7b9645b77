-- ===== src/Float.antt =====
-- The float type of the target, as an interface: the comparisons that the program makes, the two
-- sentinels of main/jlp/zone_registry.cpp, and how ArduinoJson reads a number.
use espos_p4_cockpit.Prelude.{◌≡◌, ◌⊎◌, Bool, true, not, ◌&&◌}

pub record FloatLib : Type 1 where
  pub Float : Type 0
  pub lt : Float → Float → Bool
  pub le : Float → Float → Bool
  pub eq : Float → Float → Bool
  pub minus_huge : Float
  pub huge : Float

-- What IEEE 754 says of these comparisons where no operand is NaN. Two zeros compare equal, so `eq`
-- is not the equality of representations.
pub record IsOrdered (F : FloatLib) : Type 0 where
  pub le_total : (a b : F.Float) → (F.le a b ≡ true) ⊎ (F.le b a ≡ true)
  pub le_trans : (a b c : F.Float) → F.le a b ≡ true → F.le b c ≡ true → F.le a c ≡ true
  pub lt_not_le : (a b : F.Float) → F.lt a b ≡ not (F.le b a)
  pub eq_both : (a b : F.Float) → F.eq a b ≡ (F.le a b && F.le b a)
