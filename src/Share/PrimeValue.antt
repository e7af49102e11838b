-- ===== src/Share/PrimeValue.antt =====
-- The parameter of `ShareComp`: `PrimeField`.
use quick_mpc.Prelude.{ℕ, ◌≤◌}
use quick_mpc.PrimeField
use quick_mpc.PrimeField.{p}
use quick_mpc.Share.{SecretValue, Shared}

instance abbrev pub prime_value : SecretValue ℕ
prime_value = record {
  default = 0;
  plus = PrimeField.add;
  minus = PrimeField.sub;
  times = PrimeField.mul;
  negate = PrimeField.neg;
  invert = PrimeField.get_inv;
  parse = PrimeField.of_int;
}

-- Every party holds a value that the operations of `PrimeField` keep.
abbrev pub IsValid : Shared ℕ → Type 0
IsValid x = (i : ℕ) → x i ≤ p
