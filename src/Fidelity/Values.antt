-- ===== src/Fidelity/Values.antt =====
-- One value and one row image: `appendValue` and `EncodeRow` beside `literal`.
use mulligan.Base.{
  ℕ, ◌+◌, ◌≡◌, refl, true, false, List, [], ◌∷◌, all, arith, is_ok, Result-cases, inl, inr,
}
use mulligan.Base.Text.{Bytes}
use mulligan.Change.{Value}
use mulligan.Codec.Encode.{append_value, append_values, encode_row}
use mulligan.Codec.RoundTrip.Value.{stored}
use mulligan.Reverse.Literal.{Formats, literal, quote_time}

module _ (f : Formats) where
  append_value-literal : (b : Bytes) (v : Value) → is_ok (append_value b v) ≡ is_ok (literal f v)
  unfolding append_value literal
  append_value-literal b Value.null = refl
  append_value-literal b (Value.bool true) = refl
  append_value-literal b (Value.bool false) = refl
  append_value-literal b (Value.raw s) = ground arith
  append_value-literal b _ = refl

  append_values-literal :
      (b : Bytes) (i : ℕ) (row : List Value)
      → is_ok (append_values b i row) ≡ all (λ v. is_ok (literal f v)) row
  unfolding append_values
  append_values-literal b i [] = refl
  append_values-literal b i (v ∷ row) = elim (Result-cases (append_value b v)) [
    | inl (b', e) ↦
        ground (arith, e, append_value-literal b v, append_values-literal b' (i + 1) row)
    | inr (x, e) ↦ ground (arith, e, append_value-literal b v)
  ]

  -- The codec accepts a row image exactly when the engine can render every value in it, so a change
  -- that is stored can be reversed, and one that could not be reversed is refused when it is stored.
  pub encode_row-iff-literal :
      (row : List Value) → is_ok (encode_row row) ≡ all (λ v. is_ok (literal f v)) row
  unfolding encode_row
  encode_row-iff-literal row = append_values-literal _ 0 row

  -- A value that was stored renders as the same SQL, or is refused with the same error.
  pub literal-stored : (v : Value) → literal f (stored v) ≡ literal f v
  unfolding literal stored quote_time
  literal-stored Value.null = refl
  literal-stored _ = refl
