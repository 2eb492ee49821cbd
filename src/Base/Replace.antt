-- ===== src/Base/Replace.antt =====
-- `strings.ReplaceAll`, with the laws by which a text is filled in.
use Prim.Native.Nat.{ℕ, zero, suc, ◌-◌}
use Prim.Native.Char.{code}
use Prim.Native.String.{String, ◌++◌}
use mathlib.Core.Path.{◌≡◌, refl, ap, ◌∙◌}
use mathlib.Core.Logic.{◌≢◌}
use mathlib.Core.Bool.{Bool, true, false, ◌&&◌}
use native.Mathlib.Omega.{arith}
use text.Mathlib.TextLemmas.{nil-append, cons-append}
use ffstream.Base.Tests.{◌==◌, if◌then◌else◌}

abbrev pub text_length : String → ℕ
text_length String.[] = 0
text_length (String.◌∷◌ c s) = suc (text_length s)

unfoldable pub begins_with : String → String → Bool
begins_with String.[] s = true
begins_with (String.◌∷◌ c o) String.[] = false
begins_with (String.◌∷◌ c o) (String.◌∷◌ d s) = code c == code d && begins_with o s

-- From left to right, behind `skip` characters that are replaced already. `old` is not empty.
unfoldable pub replace_from : String → String → ℕ → String → String
unfolding begins_with
replace_from old new skip String.[] = ""
replace_from old new (suc skip) (String.◌∷◌ c s) = replace_from old new skip s
replace_from old new zero (String.◌∷◌ c s) =
    let replaced = new ++ replace_from old new (text_length old - 1) s in
    let kept = String.◌∷◌ c (replace_from old new zero s) in
    if begins_with old (String.◌∷◌ c s) then replaced else kept

unfoldable pub replace_all : String → String → String → String
unfolding replace_from
replace_all s old new = replace_from old new 0 s

-- The concatenation by clauses, which computes at a text that is known.
abbrev pub spell : String → String → String
spell String.[] t = t
spell (String.◌∷◌ c s) t = String.◌∷◌ c (spell s t)

pub append-spell : (s t : String) → s ++ t ≡ spell s t
append-spell String.[] t = nil-append t
append-spell (String.◌∷◌ c s) t = cons-append c s t ∙ ap (String.◌∷◌ c) (append-spell s t)

-- A text with no dollar sign.
abbrev pub IsPlain : String → Type 0
IsPlain String.[] = Unit {0}
IsPlain (String.◌∷◌ c s) = (b'$' ≢ code c) × IsPlain s

begins_with-spell : (p t : String) → begins_with p (spell p t) ≡ true
unfolding begins_with
begins_with-spell String.[] t = refl
begins_with-spell (String.◌∷◌ c p) t = ground (arith, begins_with-spell p t)

replace-skip :
    (old new s t : String)
    → replace_from old new (text_length s) (spell s t) ≡ replace_from old new 0 t
unfolding replace_from
replace-skip old new String.[] t = refl
replace-skip old new (String.◌∷◌ c s) t = replace-skip old new s t

module _ (o new : String) where
  abbrev dollar : String
  dollar = String.◌∷◌ "$" o

  pub replace-plain :
      (s t : String)
      → IsPlain s
      → replace_from dollar new 0 (spell s t) ≡ spell s (replace_from dollar new 0 t)
  unfolding replace_from begins_with
  replace-plain String.[] t h = refl
  replace-plain (String.◌∷◌ c s) t (d, h) =
      let other : (b'$' == code c) ≡ false = ground arith in
      rw other (ap (String.◌∷◌ c) (replace-plain s t h))

  pub replace-found :
      (t : String)
      → replace_from dollar new 0 (spell dollar t) ≡ spell new (replace_from dollar new 0 t)
  unfolding replace_from
  replace-found t =
      let e : text_length dollar - 1 ≡ text_length o = omega arith in
      rw (begins_with-spell dollar t, e)
        (append-spell new (replace_from dollar new (text_length o) (spell o t))
          ∙ ap (spell new) (replace-skip dollar new o t))

  -- Another text that begins with a dollar sign, and has no more of them.
  pub replace-other :
      (p t : String)
      → begins_with dollar (spell (String.◌∷◌ "$" p) t) ≡ false
      → IsPlain p
      → replace_from dollar new 0 (spell (String.◌∷◌ "$" p) t)
        ≡ spell (String.◌∷◌ "$" p) (replace_from dollar new 0 t)
  unfolding replace_from
  replace-other p t b h = rw b (ap (String.◌∷◌ "$") (replace-plain p t h))
