-- ===== src/Base/Fixes.antt =====
-- Code that leaves a part of its state alone.
use mathlib.Core.Path.{◌≡◌, sym, ap, subst, ◌∙◌}
use mathlib.Core.Bool.{Bool, true, false}
use npu_oj.Base.Tests.{if◌then◌else◌}
use npu_oj.Base.Effect.{ok, Prog, ◌>>=◌, pure, gets, >>=-eq-ok, ok-injective}

module _ {M X : Type 0} (part : M → X) where
  -- When `f` returns, the part is as before.
  abbrev pub Fixes : {A : Type 0} → Prog M A → Type 0
  Fixes {A} f = (m m' : M) (a : A) → f m ≡ ok (a, m') → part m' ≡ part m

  pub >>=-Fixes :
      {A B : Type 0} (f : Prog M A) (k : A → Prog M B)
      → Fixes f
      → ((a : A) → Fixes (k a))
      → Fixes (f >>= k)
  >>=-Fixes f k fix_f fix_k m m' b h =
      let (a, m1, e, h1) = >>=-eq-ok f k m h in fix_k a m1 m' b h1 ∙ fix_f m m1 a e

  pub pure-Fixes : {A : Type 0} (a : A) → Fixes (pure a)
  pure-Fixes a m m' b h = ap part (ok-injective h).1

  pub gets-Fixes : {A : Type 0} (read : M → A) → Fixes (gets read)
  gets-Fixes read m m' b h = ap part (ok-injective h).1

module _ {M : Type 0} (P : M → Type 0) where
  -- When `f` returns, what held before still holds.
  abbrev pub Keeps : {A : Type 0} → Prog M A → Type 0
  Keeps {A} f = (m m' : M) (a : A) → P m → f m ≡ ok (a, m') → P m'

  pub >>=-Keeps :
      {A B : Type 0} (f : Prog M A) (k : A → Prog M B)
      → Keeps f
      → ((a : A) → Keeps (k a))
      → Keeps (f >>= k)
  >>=-Keeps f k keep_f keep_k m m' b p h =
      let (a, m1, e, h1) = >>=-eq-ok f k m h in keep_k a m1 m' b (keep_f m m1 a p e) h1

  pub pure-Keeps : {A : Type 0} (a : A) → Keeps (pure a)
  pure-Keeps a m m' b p h = subst P (sym (ok-injective h).1) p

  -- Either branch of a test.
  pub if-Keeps :
      {A : Type 0} (b : Bool) (f g : Prog M A) → Keeps f → Keeps g → Keeps (if b then f else g)
  if-Keeps true f g keep_f keep_g = keep_f
  if-Keeps false f g keep_f keep_g = keep_g
