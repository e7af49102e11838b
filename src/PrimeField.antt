-- ===== src/PrimeField.antt =====
-- src/ComputationContainer/PrimeField/PrimeField.hpp: the class `PrimeField` over
-- `checked_uint128_t`, `modpow`, `Legendre` and `modsqrt`. A value of the class is its one field
-- `value`, a number. It is at most `p`, and equal to `p` only as the negative of zero.
pub mod Ring
pub mod Power
pub mod Sqrt
mod Tests
use quick_mpc.Prelude.{
  ℕ, zero, suc, ◌+◌, ◌-◌, ◌*◌, ◌/◌, ◌%◌, ◌^◌, Bool, true, false, Option, none, some, ltb, leb, ◌==◌,
  if◌then◌else◌,
}

-- The constants of the class: the order of the field, its bit length and the root of that.
abbrev pub p : ℕ
p = 18446744073709551557

abbrev pub l : ℕ
l = 64

abbrev pub lambda : ℕ
lambda = 8

abbrev pub inverse_of_two : ℕ
inverse_of_two = 9223372036854775779

-- Every product of two values is formed in 128 bits before it is reduced.
abbrev pub uint128_mod : ℕ
uint128_mod = 2 ^ 128

-- The converting constructor at an argument that is not negative; `none` is the exception.
pub of_int : ℕ → Option ℕ
of_int obj = if ltb p obj then none else some (obj % p)

unfoldable pub neg : ℕ → ℕ
neg a = p - a

unfoldable pub add : ℕ → ℕ → ℕ
add a b = (a + b) % p

unfoldable pub sub : ℕ → ℕ → ℕ
sub a b = (a + (p - b)) % p

unfoldable pub mul : ℕ → ℕ → ℕ
mul a b = a * b % p

-- One bit of the exponent is used in each round; `bits` bounds the rounds.
unfoldable pub modpow_loop : ℕ → ℕ → ℕ → ℕ → ℕ
modpow_loop zero ret a b = ret
modpow_loop (suc bits) ret a b =
    let rest = modpow_loop bits (if b % 2 == 1 then ret * a % p else ret) (a * a % p) (b / 2) in
    if b == 0 then ret else rest

-- The exponents are 128 bits wide.
unfoldable pub modpow : ℕ → ℕ → ℕ
modpow a b = modpow_loop 128 1 a b

unfoldable pub get_inv : ℕ → ℕ
get_inv a = modpow a (p - 2)

pub div : ℕ → ℕ → ℕ
div a b = a * get_inv b % p

-- `operator%=`, `operator==` and `operator<` look at the stored values.
pub rem : ℕ → ℕ → ℕ
rem a b = a % b

pub eq : ℕ → ℕ → Bool
eq a b = a == b

pub lt : ℕ → ℕ → Bool
lt a b = ltb a b

-- Whether `a` is a quadratic residue.
pub legendre : ℕ → Bool
legendre a = let ret = modpow a (p / 2) in if ret == p - 1 then false else true

-- The outcome of `modsqrt`: a root, the exception of a checked subtraction below zero, or a loop
-- that has used up its fuel.
pub data Outcome : Type 0 where
  root : ℕ → Outcome
  throws : Outcome
  running : Outcome

-- p - 1 is Q * 2 ^ S with Q odd; the last is 2 ^ Q, for 2 is no square.
abbrev pub odd_part : ℕ
odd_part = 4611686018427387889

abbrev pub two_part : ℕ
two_part = 2

abbrev pub non_residue_pow : ℕ
non_residue_pow = 2296021864060584341

-- `for (i = 1; i < M; i++)`: the number of squarings that take `t2` to one, or `M`.
pub order_loop : ℕ → ℕ → ℕ → ℕ
order_loop zero i t2 = i
order_loop (suc left) i t2 =
    let squared = t2 * t2 % p in
    let rest = order_loop left (i + 1) squared in if squared == 1 then i else rest

-- The root on the lower half of the field.
pub smaller_root : ℕ → ℕ
smaller_root r = if leb r (p / 2) then r % p else (p - r) % p

-- `while (t != 1)`, over R, t, c and M.
pub sqrt_loop : ℕ → ℕ → ℕ → ℕ → ℕ → Outcome
sqrt_loop zero r t c m = running
sqrt_loop (suc fuel) r t c m =
    let i = order_loop (m - 1) 1 t in
    let b = modpow c (modpow 1 (m - i - 1)) in
    let rest = sqrt_loop fuel (r * b % p) (t * b % p * b % p) (b * b % p) i in
    if t == 1 then root (smaller_root r) else (if ltb m (i + 1) then throws else rest)

pub modsqrt : ℕ → Outcome
modsqrt n = sqrt_loop 3 (modpow n ((odd_part + 1) / 2)) (modpow n odd_part) non_residue_pow two_part
