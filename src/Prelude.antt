-- ===== src/Prelude.antt =====
-- Names shared by every module: the libraries' names passed on, Boolean tests, lists measured by
-- native numbers, and the wrap-around arithmetic of Go's uint64.
mod Tests
mod Lists
mod Words
unfoldable pub use Tests.*
unfoldable pub use Lists.*
unfoldable pub use Words.*
pub use Prim.Native.Nat.{ℕ, zero, suc, ◌+◌, ◌-◌, ◌*◌, ◌/◌, ◌%◌, ◌^◌, ◌≤◌, ◌<◌, min, max}
pub use Prim.Native.String.{String}
pub use mathlib.Core.Path.{◌≡◌, refl, sym, ap, ◌∙◌, subst}
pub use mathlib.Core.Logic.{◌≢◌, ◌↔◌, ◌⊎◌, inl, inr}
pub use mathlib.Core.Bool.{Bool, true, false, not, ◌&&◌, ◌||◌}
pub use mathlib.Core.Option.{Option, none, some}
pub use mathlib.Core.List.{List, [], ◌∷◌, ◌++◌, map, append_assoc, append-nil}
pub use native.Mathlib.Omega.{arith}
pub use text.Mathlib.Text.{◌==◌ as str_eq}
pub use text.Mathlib.TextEquality.{eq_iff}

pub str_eq_sym : (a b : String) → str_eq a b ≡ str_eq b a
str_eq_sym a b =
    Bool-eq _ _ (λ h. (eq_iff b a).1 (sym ((eq_iff a b).0 h)))
      (λ h. (eq_iff a b).1 (sym ((eq_iff b a).0 h)))
