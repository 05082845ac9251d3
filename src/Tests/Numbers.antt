-- ===== src/Tests/Numbers.antt =====
-- Natural numbers in place of `f64`, for runs: only the order and the conversions matter here.
use iptsd_android.Prelude.{
  ℕ, refl, ◌+◌, ◌-◌, ◌*◌, ◌/◌, ◌%◌, ◌^◌, false, some, ltb, leb, ◌==◌, if◌then◌else◌, arith,
}
use iptsd_android.Prelude.Int.{pos, pos_part}
use iptsd_android.Prelude.Float.{Float, IsOrdered}
use iptsd_android.Core.Dft.Valid.{HasUnits}

instance abbrev pub numbers : Float ℕ
numbers = record {
  of_nat = λ n. n;
  of_int = pos_part;
  pi = 3;
  nan = 0;
  infinity = 1000000;
  neg = λ n. 0;
  add = λ a b. a + b;
  sub = λ a b. a - b;
  mul = λ a b. a * b;
  div = λ a b. if b == 0 then 0 else a / b;
  lt = ltb;
  le = leb;
  eq = λ a b. a == b;
  is_nan = λ a. false;
  abs = λ a. a;
  exp = λ a. a;
  log = λ a. a;
  sqrt = λ a. a;
  floor = λ a. a;
  ceil = λ a. a;
  sin = λ a. a;
  cos = λ a. a;
  asin = λ a. a;
  atan2 = λ a b. a;
  hypot = λ a b. a + b;
  pow = λ a b. a ^ b;
  fmod = λ a b. if b == 0 then 0 else a % b;
  max_coeff = λ a b. if ltb a b then b else a;
  min_coeff = λ a b. if ltb a b then a else b;
  fmin = λ a b. if ltb a b then a else b;
  fmax = λ a b. if ltb a b then b else a;
  round_i32 = λ a. some (pos a);
  round_usize = λ a. some a;
}

pub numbers-IsOrdered : IsOrdered ℕ
numbers-IsOrdered = record {
  lt-eq-not-le = λ a b n m. ground arith;
  le_total = λ a b n m. ground arith;
  le_trans = λ a b c h k. ground arith;
}

pub numbers-HasUnits : HasUnits ℕ
numbers-HasUnits = record {
  order = numbers-IsOrdered;
  lt-not_nan = λ a b h. refl;
  zero_number = refl;
  one_number = refl;
  zero-le-one = refl;
}
