-- ===== src/Base/Outcome.antt =====
-- The outcome of a computation that may fault (a null dereference, an access at a wrong type, a
-- failed assertion) or outlast the fuel of a loop.
pub data Run {ℓ} (A : Type ℓ) : Type ℓ where
  ok : A → Run A
  fault : Run A
  out_of_fuel : Run A

abbrev pub and_then {ℓ κ} : {A : Type ℓ} {B : Type κ} → Run A → (A → Run B) → Run B
and_then (ok a) k = k a
and_then fault k = fault
and_then out_of_fuel k = out_of_fuel
