-- ===== src/Shadow/Place.antt =====
-- The paths that `CheckOutput` of shadow.go starts from.
use egress_router.Common.{
  ◌||◌, not, Option, [], ◌≡◌, ◌≢◌, sym, ap, ◌∙◌, arith, Text, lit, ◌==◌, text_eq, text_beq_iff,
  Result, ok, or_err, reject, ◌>>=◌, ◌>>◌, >>=-eq-ok, reject-eq-ok, or_err-eq-ok, Option, some,
}
use egress_router.Paths.{base_name, absolute}
use egress_router.Shadow.Defs.{ShadowError, unsafe_output_path}

abbrev pub file_name : Text
file_name = lit "catalog-shadow.json"

-- The absolute path of the output.
unfoldable pub output_path : Option Text → Text → Text → Result ShadowError Text
output_path getwd base output = do
  reject (base == [] || (output == [] || not (base_name output == file_name))) unsafe_output_path
  abs ← or_err (absolute getwd output) unsafe_output_path
  base_abs ← or_err (absolute getwd base) unsafe_output_path
  reject (abs == base_abs) unsafe_output_path
  ok abs

-- An output with its absolute path.
pub record IsPlace (getwd : Option Text) (base output abs : Text) : Type 0 where
  pub named : base_name output ≡ file_name
  pub known : absolute getwd output ≡ some abs
  pub apart : absolute getwd base ≢ some abs

pub output_path-IsPlace :
    (getwd : Option Text) (base output : Text) {abs : Text}
    → output_path getwd base output ≡ ok abs
    → IsPlace getwd base output abs
unfolding output_path
output_path-IsPlace getwd base output {abs} h =
    let (_, h₁, k₁) =
      >>=-eq-ok
        (reject (base == [] || (output == [] || not (base_name output == file_name)))
          unsafe_output_path)
        _ h in
    let (a, h₂, k₂) = >>=-eq-ok (or_err (absolute getwd output) unsafe_output_path) _ k₁ in
    let (b, h₃, k₃) = >>=-eq-ok (or_err (absolute getwd base) unsafe_output_path) _ k₂ in
    let (_, h₄, k₄) = >>=-eq-ok (reject (a == b) unsafe_output_path) _ k₃ in
    let n =
      reject-eq-ok (base == [] || (output == [] || not (base_name output == file_name)))
        unsafe_output_path h₁ in
    let d = reject-eq-ok (a == b) unsafe_output_path h₄ in
    let same : a ≡ abs = cc k₄ in
    let at_base = or_err-eq-ok (absolute getwd base) unsafe_output_path h₃ in
    record {
      named = ground (arith, n, text_beq_iff (base_name output) file_name);
      known = or_err-eq-ok (absolute getwd output) unsafe_output_path h₂ ∙ ap some same;
      apart = λ q. ground (arith, d, text_beq_iff a b, same, sym at_base ∙ q);
    }
