-- ===== src/Common/Action.antt =====
-- A script's step on the state outside it: the state comes back however the step ends, since what
-- was written stays written.
use etheorem.Common.{◌≡◌, refl, ap, Bool, true, false, Option, none, some, Text, ◌≢◌, if◌then◌else◌}
use mathlib.Core.Path.{subst}
use etheorem.Common.Outcome.{Outcome, passed, exits, raised}

abbrev pub Action {ℓ κ} : Type ℓ → Type κ → Type (ℓ ⊔ κ)
Action W A = W → Outcome A × W

-- A step that returns nothing.
abbrev pub Step {ℓ} : Type ℓ → Type ℓ
Step W = Action W (Unit {0})

module _ {ℓ κ} {W : Type ℓ} {A : Type κ} where
  abbrev pub pure : A → Action W A
  pure a w = (passed a, w)

  -- `sys.exit` with a message, and an exception.
  abbrev pub exit_with : Text → Action W A
  exit_with message w = (exits message, w)

  abbrev pub raise : Action W A
  raise w = (raised, w)

  abbrev pub gets : (W → A) → Action W A
  gets f w = (passed (f w), w)

  -- What a step returns, or `raised` where it returns nothing.
  abbrev pub or_raise : Option A → Action W A
  or_raise none w = (raised, w)
  or_raise (some a) w = (passed a, w)

abbrev pub modify {ℓ} : {W : Type ℓ} → (W → W) → Action W (Unit {0})
modify f w = (passed tt, f w)

module _ {ℓ κ μ} {W : Type ℓ} {A : Type κ} {B : Type μ} where
  -- The rest of a script behind a step that has ended.
  abbrev pub follow : Outcome A × W → (A → Action W B) → Outcome B × W
  follow (passed a, w) f = f a w
  follow (exits message, w) f = (exits message, w)
  follow (raised, w) f = (raised, w)

  infixl 5 ◌>>=◌ ◌>>◌
  unfoldable pub ◌>>=◌ : Action W A → (A → Action W B) → Action W B
  ◌>>=◌ m f w = follow (m w) f

  abbrev pub ◌>>◌ : Action W A → Action W B → Action W B
  m >> k = m >>= λ _. k

  -- Inversion of a bind that passes.
  pub >>=-eq-passed :
      (m : Action W A) (f : A → Action W B) (w : W) {b : B} {v : W}
      → (m >>= f) w ≡ (passed b, v)
      → (a : A) × (x : W) × (m w ≡ (passed a, x)) × (f a x ≡ (passed b, v))
  unfolding ◌>>=◌
  >>=-eq-passed m f w h = invert (m w) f refl h
    where
      invert :
          {o : Outcome A × W} (p : Outcome A × W) (f : A → Action W B) {b : B} {v : W}
          → o ≡ p
          → follow p f ≡ (passed b, v)
          → (a : A) × (x : W) × (o ≡ (passed a, x)) × (f a x ≡ (passed b, v))
      invert (passed a, x) f e h = (a, x, e, h)
      invert (exits message, x) f e h = cc
      invert (raised, x) f e h = cc

-- `if test: sys.exit(message)`
abbrev pub exit_if {ℓ} : {W : Type ℓ} → Bool → Text → Action W (Unit {0})
exit_if true message w = (exits message, w)
exit_if false message w = (passed tt, w)

-- The step keeps a predicate on the state, however it ends.
unfoldable pub Keeps {ℓ κ μ} : {W : Type ℓ} {A : Type κ} → (W → Type μ) → Action W A → Type (ℓ ⊔ μ)
Keeps {W = W} P m = (w : W) → P w → P (m w).1

-- The step never ends in `sys.exit`.
unfoldable pub NeverExits {ℓ κ} : {W : Type ℓ} {A : Type κ} → Action W A → Type (ℓ ⊔ κ)
NeverExits {W = W} m = (w : W) (message : Text) → (m w).0 ≢ exits message

module _ {ℓ κ μ ν} {W : Type ℓ} {A : Type κ} {B : Type μ} (P : W → Type ν) where
  pub Keeps-follow :
      (p : Outcome A × W) (f : A → Action W B)
      → P p.1
      → ((a : A) → Keeps P (f a))
      → P (follow p f).1
  unfolding Keeps
  Keeps-follow (passed a, w) f h k = k a w h
  Keeps-follow (exits message, w) f h k = h
  Keeps-follow (raised, w) f h k = h

  pub Keeps->>= :
      (m : Action W A) (f : A → Action W B)
      → Keeps P m
      → ((a : A) → Keeps P (f a))
      → Keeps P (m >>= f)
  unfolding Keeps ◌>>=◌
  Keeps->>= m f h k w p = Keeps-follow (m w) f (h w p) k

module _ {ℓ κ μ} {W : Type ℓ} {A : Type κ} {B : Type μ} where
  NeverExits-follow :
      (p : Outcome A × W) (f : A → Action W B) (message : Text)
      → ((t : Text) → p.0 ≢ exits t)
      → ((a : A) → NeverExits (f a))
      → (follow p f).0 ≢ exits message
  unfolding NeverExits
  NeverExits-follow (passed a, w) f message h k = k a w message
  NeverExits-follow (exits t, w) f message h k = absurd (h t refl)
  NeverExits-follow (raised, w) f message h k = cc

  pub NeverExits->>= :
      (m : Action W A) (f : A → Action W B)
      → NeverExits m
      → ((a : A) → NeverExits (f a))
      → NeverExits (m >>= f)
  unfolding NeverExits ◌>>=◌
  NeverExits->>= m f h k w message = NeverExits-follow (m w) f message (h w) k

  exits_ne :
      (f : A → Action W B) (a : A) (w : W) {message : Text} {v : W}
      → ((a : A) → NeverExits (f a))
      → f a w ≢ (exits message, v)
  unfolding NeverExits
  exits_ne f a w {message = message} k h = k a w message (ap (λ (p : Outcome B × W). p.0) h)

  -- Inversion of a bind that exits, where the part behind it never does.
  pub >>=-eq-exits :
      (m : Action W A) (f : A → Action W B) (w v : W) (message : Text)
      → ((a : A) → NeverExits (f a))
      → (m >>= f) w ≡ (exits message, v)
      → m w ≡ (exits message, v)
  unfolding ◌>>=◌
  >>=-eq-exits m f w v message k h = invert (m w) f refl k h
    where
      invert :
          {o : Outcome A × W} (p : Outcome A × W) (f : A → Action W B) {message : Text} {v : W}
          → o ≡ p
          → ((a : A) → NeverExits (f a))
          → follow p f ≡ (exits message, v)
          → o ≡ (exits message, v)
      invert (passed a, x) f e k h = absurd (exits_ne f a x k h)
      invert (exits t, x) f e k h = cc
      invert (raised, x) f e k h = cc

-- What holds of the state that a step ends in.
pub state_of {ℓ κ μ} :
    {W : Type ℓ} {A : Type κ} (P : W → Type μ) {p : Outcome A × W} {o : Outcome A} {v : W}
    → p ≡ (o, v)
    → P p.1
    → P v
state_of P e h = subst (λ p. P p.1) e h

-- What follows a value that is there.
pub or_raise-passed {ℓ κ μ} :
    {W : Type ℓ} {A : Type κ} {B : Type μ} (o : Option A) (f : A → Action W B) (w v : W) {b : B}
    → (or_raise o >>= f) w ≡ (passed b, v)
    → (a : A) × (o ≡ some a) × (f a w ≡ (passed b, v))
unfolding ◌>>=◌
or_raise-passed none f w v h = cc
or_raise-passed (some a) f w v h = (a, refl, h)

-- The steps that do not change the state keep every predicate.
module _ {ℓ κ μ} {W : Type ℓ} {A : Type κ} (P : W → Type μ) where
  pub Keeps-pure : (a : A) → Keeps P (pure a)
  unfolding Keeps
  Keeps-pure a w h = h

  pub Keeps-gets : (f : W → A) → Keeps P (gets f)
  unfolding Keeps
  Keeps-gets f w h = h

  pub Keeps-or_raise : (o : Option A) → Keeps P (or_raise o)
  unfolding Keeps
  Keeps-or_raise none w h = h
  Keeps-or_raise (some a) w h = h

  pub Keeps-if :
      (test : Bool) (m k : Action W A) → Keeps P m → Keeps P k → Keeps P (if test then m else k)
  Keeps-if true m k h g = h
  Keeps-if false m k h g = g

pub Keeps-exit_if {ℓ μ} :
    {W : Type ℓ} (P : W → Type μ) (test : Bool) (message : Text) → Keeps P (exit_if test message)
unfolding Keeps
Keeps-exit_if P true message w h = h
Keeps-exit_if P false message w h = h

-- A bind whose first step is known to pass, and one that reads the state.
pub >>=-passed {ℓ κ μ} :
    {W : Type ℓ} {A : Type κ} {B : Type μ} (m : Action W A) (f : A → Action W B) (w v : W) (a : A)
    → m w ≡ (passed a, v)
    → (m >>= f) w ≡ f a v
unfolding ◌>>=◌
>>=-passed m f w v a h = ap (λ p. follow p f) h

pub >>=-gets {ℓ κ μ} :
    {W : Type ℓ} {A : Type κ} {B : Type μ} (g : W → A) (f : A → Action W B) (w : W)
    → (gets g >>= f) w ≡ f (g w) w
unfolding ◌>>=◌
>>=-gets g f w = refl
