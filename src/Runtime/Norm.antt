-- ===== src/Runtime/Norm.antt =====
-- The L∞ norm of `latent_l_inf`: it bounds every component, and is finite only if every one is.
use axm_embodied.Common.{◌≡◌, ◌≢◌, refl, ◌∙◌, true, false, List, [], ◌∷◌, All, arith}
use axm_embodied.Common.Float.{Float, finite, infinite, nan, is_finite, abs, maximum, gt}
use axm_embodied.Runtime.{fold_max, latent_l_inf, clamp_finite}

-- A component that the bound `b` lets through.
abbrev pub IsWithin : Float → Float → Type 0
IsWithin b x = (is_finite x ≡ true) × (gt (abs x) b ≡ false)

abs-maximum : (x y : Float) → abs x ≡ x → abs (maximum x (abs y)) ≡ maximum x (abs y)
unfolding maximum gt abs
abs-maximum (finite false m) (finite t n) h = ground arith
abs-maximum (finite true m) (finite t n) h = ground arith
abs-maximum (finite s m) (infinite t) h = ground arith
abs-maximum (infinite s) (finite t n) h = ground arith
abs-maximum (infinite s) (infinite t) h = ground arith
abs-maximum (finite s m) nan h = refl
abs-maximum (infinite s) nan h = refl
abs-maximum nan y h = refl

abs-abs : (x : Float) → abs (abs x) ≡ abs x
unfolding abs
abs-abs (finite s m) = refl
abs-abs (infinite s) = refl
abs-abs nan = refl

maximum-IsWithin :
    (x y b : Float)
    → abs x ≡ x
    → is_finite (maximum x (abs y)) ≡ true
    → gt (maximum x (abs y)) b ≡ false
    → ((is_finite x ≡ true) × (gt x b ≡ false)) × IsWithin b y
unfolding maximum gt abs
maximum-IsWithin (finite false m) (finite t n) (finite false k) a h g = ground arith
maximum-IsWithin (finite false m) (finite t n) (finite true k) a h g = ground arith
maximum-IsWithin (finite true m) (finite t n) b a h g = ground arith
maximum-IsWithin (finite false m) (finite t n) (infinite u) a h g = ground arith
maximum-IsWithin (finite false m) (finite t n) nan a h g = ground arith
maximum-IsWithin (finite s m) (infinite t) b a h g = ground arith
maximum-IsWithin (infinite s) (finite t n) b a h g = ground arith
maximum-IsWithin (infinite s) (infinite t) b a h g = ground arith
maximum-IsWithin (finite s m) nan b a h g = ground arith
maximum-IsWithin (infinite s) nan b a h g = ground arith
maximum-IsWithin nan y b a h g = ground arith

maximum_both :
    (x y b : Float)
    → is_finite x ≡ true
    → gt x b ≡ false
    → IsWithin b y
    → (is_finite (maximum x (abs y)) ≡ true) × (gt (maximum x (abs y)) b ≡ false)
unfolding maximum gt abs
maximum_both (finite s m) (finite t n) b h g w = ground arith
maximum_both (finite s m) (infinite t) b h g w = ground arith
maximum_both (finite s m) nan b h g w = ground arith
maximum_both (infinite s) y b h g w = ground arith
maximum_both nan y b h g w = ground arith

fold-IsWithin :
    (xs : List Float) (m b : Float)
    → abs m ≡ m
    → is_finite (fold_max m xs) ≡ true
    → gt (fold_max m xs) b ≡ false
    → ((is_finite m ≡ true) × (gt m b ≡ false)) × All (IsWithin b) xs
unfolding fold_max
fold-IsWithin [] m b a h g = ((h, g), tt)
fold-IsWithin (x ∷ xs) m b a h g =
    let ((h₁, g₁), w) = fold-IsWithin xs (maximum m (abs x)) b (abs-maximum m x a) h g in
    let (m_ok, x_ok) = maximum-IsWithin m x b a h₁ g₁ in (m_ok, (x_ok, w))

fold_both :
    (xs : List Float) (m b : Float)
    → is_finite m ≡ true
    → gt m b ≡ false
    → All (IsWithin b) xs
    → (is_finite (fold_max m xs) ≡ true) × (gt (fold_max m xs) b ≡ false)
unfolding fold_max
fold_both [] m b h g w = (h, g)
fold_both (x ∷ xs) m b h g (wx, w) =
    let (h₁, g₁) = maximum_both m x b h g wx in fold_both xs (maximum m (abs x)) b h₁ g₁ w

clamp_finite_inv : (m : Float) → is_finite (clamp_finite m) ≡ true → clamp_finite m ≡ m
clamp_finite_inv (finite s n) h = refl
clamp_finite_inv (infinite s) h = cc
clamp_finite_inv nan h = cc

is_finite-abs : (x : Float) → is_finite (abs x) ≡ is_finite x
unfolding abs
is_finite-abs (finite s n) = refl
is_finite-abs (infinite s) = refl
is_finite-abs nan = refl

-- A finite norm that does not exceed a bound: there is a component, and none is outside.
pub latent_l_inf-IsWithin :
    (lat : List Float) (b : Float)
    → is_finite (latent_l_inf lat) ≡ true
    → gt (latent_l_inf lat) b ≡ false
    → (lat ≢ []) × All (IsWithin b) lat
unfolding latent_l_inf
latent_l_inf-IsWithin [] b h g = cc
latent_l_inf-IsWithin (x ∷ xs) b h g =
    let e = clamp_finite_inv (fold_max (abs x) xs) h in
    let ((h₁, g₁), w) = fold-IsWithin xs (abs x) b (abs-abs x) (rw e at h) (rw e at g) in
    ((λ none_left. cc), ((cc (is_finite-abs x), g₁), w))

pub latent_l_inf_both :
    (lat : List Float) (b : Float)
    → lat ≢ []
    → All (IsWithin b) lat
    → (is_finite (latent_l_inf lat) ≡ true) × (gt (latent_l_inf lat) b ≡ false)
unfolding latent_l_inf
latent_l_inf_both [] b n w = absurd (n refl)
latent_l_inf_both (x ∷ xs) b n ((hx, gx), w) =
    let (h, g) = fold_both xs (abs x) b (is_finite-abs x ∙ hx) gx w in rw h (h, g)
