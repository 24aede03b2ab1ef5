-- ===== src/Base/Effect.antt =====
-- How a call ends, and code that acts on the world outside the program.
use mathlib.Core.Path.{◌≡◌, refl}
use npu_oj.Base.Int.{ℤ}

-- `faults` is undefined behaviour, such as a read through a null pointer; `exits` is `exit(code)`;
-- `blocks` is a wait that only another thread or process can end.
pub data Outcome {ℓ} (A : Type ℓ) : Type ℓ where
  ok : A → Outcome A
  exits : ℤ → Outcome A
  faults : Outcome A
  blocks : Outcome A

-- Code that runs in a world of type `W`.
abbrev pub Prog : Type 0 → Type 0 → Type 0
Prog W A = W → Outcome (A × W)

infixl 5 ◌>>=◌ ◌>>◌
abbrev pub ◌>>=◌ : {W A B : Type 0} → Prog W A → (A → Prog W B) → Prog W B
◌>>=◌ m f w = elim (m w) [
  | ok (a, w') ↦ f a w'
  | exits code ↦ exits code
  | faults ↦ faults
  | blocks ↦ blocks
]

abbrev pub ◌>>◌ : {W B : Type 0} → Prog W (Unit {0}) → Prog W B → Prog W B
m >> k = m >>= λ _. k

abbrev pub pure : {W A : Type 0} → A → Prog W A
pure a w = ok (a, w)

abbrev pub fault : {W A : Type 0} → Prog W A
fault w = faults

-- A part of the state is read, or changed.
abbrev pub gets : {W A : Type 0} → (W → A) → Prog W A
gets f w = ok (f w, w)

abbrev pub modify : {W : Type 0} → (W → W) → Prog W (Unit {0})
modify f w = ok (tt, f w)

-- An outcome that does not depend on the world.
abbrev pub lift : {W A : Type 0} → Outcome A → Prog W A
lift (ok a) w = ok (a, w)
lift (exits code) w = exits code
lift faults w = faults
lift blocks w = blocks

pub lift-eq-ok :
    {W A : Type 0} (o : Outcome A) (w w' : W) {a : A}
    → lift o w ≡ ok (a, w')
    → (o ≡ ok a) × (w ≡ w')
lift-eq-ok (ok b) w w' h = (cc, cc)
lift-eq-ok (exits code) w w' h = cc
lift-eq-ok faults w w' h = cc
lift-eq-ok blocks w w' h = cc

-- Inversion of a successful chain.
pub >>=-eq-ok :
    {W A B : Type 0} (m : Prog W A) (f : A → Prog W B) (w : W) {r : B × W}
    → (m >>= f) w ≡ ok r
    → (a : A) × (w' : W) × (m w ≡ ok (a, w')) × (f a w' ≡ ok r)
>>=-eq-ok {W} {A} {B} m f w {r} h = go (m w) refl
  where
    go : (o : Outcome (A × W)) → m w ≡ o → (a : A) × (w' : W) × (m w ≡ ok (a, w')) × (f a w' ≡ ok r)
    go (ok (a, w')) e = (a, w', e, rw (e, ◌>>=◌) at h)
    go (exits code) e = cc (rw (e, ◌>>=◌) at h)
    go faults e = cc (rw (e, ◌>>=◌) at h)
    go blocks e = cc (rw (e, ◌>>=◌) at h)

-- A chain goes on from what its first part gives.
pub >>=-ok :
    {W A B : Type 0} (m : Prog W A) (f : A → Prog W B) {w w' : W} {a : A}
    → m w ≡ ok (a, w')
    → (m >>= f) w ≡ f a w'
>>=-ok m f e = rw (e, ◌>>=◌)

-- What a call returns is determined.
pub ok-injective :
    {W A : Type 0} {a b : A} {w w' : W}
    → ◌≡◌ {A = Outcome (A × W)} (ok (a, w)) (ok (b, w'))
    → (b ≡ a) × (w' ≡ w)
ok-injective h = (cc h, cc h)

-- Chains that go on in the same way are the same, and a chain may be bracketed either way.
pub >>=-cong :
    {W A B : Type 0} (m : Prog W A) (f g : A → Prog W B) (w : W)
    → ((a : A) (w' : W) → f a w' ≡ g a w')
    → (m >>= f) w ≡ (m >>= g) w
>>=-cong {W} {A} {B} m f g w same = go (m w)
  where
    go :
        (o : Outcome (A × W))
        → ◌≡◌ {A = Outcome (B × W)}
            (elim o [
              | ok (a, w') ↦ f a w'
              | exits code ↦ exits code
              | faults ↦ faults
              | blocks ↦ blocks
            ])
            (elim o [
              | ok (a, w') ↦ g a w'
              | exits code ↦ exits code
              | faults ↦ faults
              | blocks ↦ blocks
            ])
    go (ok (a, w')) = same a w'
    go (exits code) = refl
    go faults = refl
    go blocks = refl

pub >>=-assoc :
    {W A B C : Type 0} (m : Prog W A) (f : A → Prog W B) (g : B → Prog W C) (w : W)
    → ((m >>= f) >>= g) w ≡ (m >>= (λ a. f a >>= g)) w
>>=-assoc {W} {A} {B} {C} m f g w = go (m w) refl
  where
    go : (o : Outcome (A × W)) → m w ≡ o → ((m >>= f) >>= g) w ≡ (m >>= (λ a. f a >>= g)) w
    go (ok (a, w')) e = rw (e, ◌>>=◌)
    go (exits code) e = rw (e, ◌>>=◌)
    go faults e = rw (e, ◌>>=◌)
    go blocks e = rw (e, ◌>>=◌)
