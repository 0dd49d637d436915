-- ===== src/Text/Order.antt =====
-- `strcmp` is a total order on texts.
use Prim.Native.Nat.{Ordering}
use mlib.Prelude.{◌≡◌, refl, ◌≢◌, [], ◌∷◌, arith}
use mlib.Text.{Text, strcmp}

pub strcmp-eq : (s t : Text) → strcmp s t ≡ Ordering.eq → s ≡ t
unfolding strcmp
strcmp-eq [] [] h = refl
strcmp-eq [] (d ∷ t) h = cc
strcmp-eq (c ∷ s) [] h = cc
strcmp-eq (c ∷ s) (d ∷ t) h = ground (arith, strcmp-eq s t)

pub strcmp_self : (s : Text) → strcmp s s ≡ Ordering.eq
unfolding strcmp
strcmp_self [] = refl
strcmp_self (c ∷ s) = ground (arith, strcmp_self s)

-- `s` does not come after `t`.
abbrev pub NotAfter : Text → Text → Type 0
NotAfter s t = strcmp s t ≢ Ordering.gt

pub NotAfter-total : (s t : Text) → strcmp s t ≡ Ordering.gt → NotAfter t s
unfolding strcmp
NotAfter-total [] [] h = cc
NotAfter-total [] (d ∷ t) h = cc
NotAfter-total (c ∷ s) [] h = λ e. cc
NotAfter-total (c ∷ s) (d ∷ t) h = ground (arith, NotAfter-total s t)

pub NotAfter-trans : (s t u : Text) → NotAfter s t → NotAfter t u → NotAfter s u
unfolding strcmp
NotAfter-trans [] t [] p q = λ e. cc
NotAfter-trans [] t (e ∷ u) p q = λ e. cc
NotAfter-trans (c ∷ s) [] u p q = absurd (p refl)
NotAfter-trans (c ∷ s) (d ∷ t) [] p q = absurd (q refl)
NotAfter-trans (c ∷ s) (d ∷ t) (e ∷ u) p q = ground (arith, NotAfter-trans s t u)

pub strcmp_swap : (s t : Text) → strcmp s t ≡ Ordering.lt → strcmp t s ≡ Ordering.gt
unfolding strcmp
strcmp_swap [] [] h = cc
strcmp_swap [] (d ∷ t) h = refl
strcmp_swap (c ∷ s) [] h = cc
strcmp_swap (c ∷ s) (d ∷ t) h = ground (arith, strcmp_swap s t)
