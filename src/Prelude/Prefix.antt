-- ===== src/Prelude/Prefix.antt =====
-- Texts with a common beginning are equal where their ends are.
use Prim.Native.Nat.{ℕ}
use Prim.Native.Char.{Char, code}
use Prim.Native.String.{String}
use Prim.Native.String.append
use mathlib.Core.Bool.{false}
use mathlib.Core.Logic.{inl, inr}
use mathlib.Core.Path.{◌≡◌, sym, ◌∙◌, ap}
use native.Mathlib.Omega.{arith}
use trade_bot.Prelude.Tests.{Bool-cases, ◌==◌}
use trade_bot.Prelude.Text.{str_append, str_eq, str_eq_iff}

tail : String → String
tail String.[] = String.[]
tail (String.◌∷◌ c s) = s

append_cancel : (p a b : String) → str_append p a ≡ str_append p b → a ≡ b
unfolding tail
append_cancel String.[] a b h = sym (append.nil a) ∙ h ∙ append.nil b
append_cancel (String.◌∷◌ c p) a b h =
    append_cancel p a b (ap tail (sym (append.cons c p a) ∙ h ∙ append.cons c p b))

pub str_eq-append :
    (p a b : String) → str_eq a b ≡ false → str_eq (str_append p a) (str_append p b) ≡ false
str_eq-append p a b h = elim (Bool-cases (str_eq (str_append p a) (str_append p b))) [
  | inl same ↦
      let e = append_cancel p a b ((str_eq_iff (str_append p a) (str_append p b)).0 same) in
      ground (arith, (str_eq_iff a b).1 e)
  | inr differ ↦ differ
]

initial : String → ℕ
initial String.[] = 0
initial (String.◌∷◌ c s) = code c

-- Texts are different where their second characters are.
unfoldable pub second : String → ℕ
unfolding initial tail
second s = initial (tail s)

second-append :
    (c d : Char) (s t : String) → second (str_append (String.◌∷◌ c (String.◌∷◌ d s)) t) ≡ code d
unfolding second initial tail
second-append c d s t =
    ap (λ u. second u) (append.cons c (String.◌∷◌ d s) t) ∙ ap (λ u. initial u) (append.cons d s t)

pub str_eq-second :
    (a : String) (c d : Char) (s t : String)
    → (code d == second a) ≡ false
    → str_eq a (str_append (String.◌∷◌ c (String.◌∷◌ d s)) t) ≡ false
str_eq-second a c d s t h =
    elim (Bool-cases (str_eq a (str_append (String.◌∷◌ c (String.◌∷◌ d s)) t))) [
      | inl same ↦
          let e =
            ap second ((str_eq_iff a (str_append (String.◌∷◌ c (String.◌∷◌ d s)) t)).0 same)
            ∙ second-append c d s t in
          ground (arith, e)
      | inr differ ↦ differ
    ]
