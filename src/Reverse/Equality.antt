-- ===== src/Reverse/Equality.antt =====
-- `equalValue` of internal/reverse/reverse.go: `reflect.DeepEqual` on two column values.
use mulligan.Base.{
  ℕ, ◌+◌, ◌-◌, ◌/◌, ◌%◌, ◌^◌, Bool, true, false, ◌&&◌, ◌||◌, not, ◌==◌, if◌then◌else◌,
}
use mulligan.Base.Int.{ℤ, pos, negsuc}
use mulligan.Base.Text.{beq}
use mulligan.Change.{Value}

int_eq : ℤ → ℤ → Bool
int_eq (pos m) (pos n) = m == n
int_eq (negsuc m) (negsuc n) = m == n
int_eq _ _ = false

-- `==` on floats of `w` bits, of which `e` make the exponent and `m` the fraction: NaN is unequal to
-- itself, and the two zeros are equal.
is_nan : ℕ → ℕ → ℕ → Bool
is_nan e m x = (x / 2 ^ m % 2 ^ e == 2 ^ e - 1) && not (x % 2 ^ m == 0)

is_zero_float : ℕ → ℕ → ℕ → Bool
is_zero_float e m x = x % 2 ^ (e + m) == 0

float_eq : ℕ → ℕ → ℕ → ℕ → Bool
unfolding is_nan is_zero_float
float_eq e m x y =
    if is_nan e m x || is_nan e m y
    then false
    else if is_zero_float e m x && is_zero_float e m y
    then true
    else x == y

-- `reflect.DeepEqual` on two column values: equal dynamic types and equal values. A nil []byte is
-- unequal to an empty one, and times are compared with their zones. Values of
-- a type that the code does not name are numbered up to DeepEqual.
unfoldable pub equal_value : Value → Value → Bool
unfolding int_eq float_eq
equal_value Value.null Value.null = true
equal_value (Value.bool true) (Value.bool c) = c
equal_value (Value.bool false) (Value.bool c) = not c
equal_value (Value.int x) (Value.int y) = int_eq x y
equal_value (Value.int8 x) (Value.int8 y) = int_eq x y
equal_value (Value.int16 x) (Value.int16 y) = int_eq x y
equal_value (Value.int32 x) (Value.int32 y) = int_eq x y
equal_value (Value.int64 x) (Value.int64 y) = int_eq x y
equal_value (Value.uint x) (Value.uint y) = x == y
equal_value (Value.uint8 x) (Value.uint8 y) = x == y
equal_value (Value.uint16 x) (Value.uint16 y) = x == y
equal_value (Value.uint32 x) (Value.uint32 y) = x == y
equal_value (Value.uint64 x) (Value.uint64 y) = x == y
equal_value (Value.float32 x) (Value.float32 y) = float_eq 8 23 x y
equal_value (Value.float64 x) (Value.float64 y) = float_eq 11 52 x y
equal_value (Value.string x) (Value.string y) = beq x y
equal_value (Value.bytes x) (Value.bytes y) = beq x y
equal_value (Value.raw x) (Value.raw y) = beq x y
equal_value (Value.unsupported x) (Value.unsupported y) = x == y
equal_value Value.nil_bytes Value.nil_bytes = true
equal_value (Value.time t) (Value.time u) = int_eq t.instant u.instant && t.zone == u.zone
equal_value _ _ = false
