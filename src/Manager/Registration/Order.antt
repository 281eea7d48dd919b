-- ===== src/Manager/Registration/Order.antt =====
-- src/zippylog/persisted_state_manager.cpp, `subscriptions`: the order of its keys.
use zippylog.Prelude.{◌≡◌, refl, true, false, [], ◌∷◌, Text, text_eq, arith}
use zippylog.Manager.Registration.{text_less}

pub less_self : (s : Text) → text_less s s ≡ false
unfolding text_less
less_self [] = refl
less_self (a ∷ s) = ground (arith, less_self s)

pub less_trans : (s t u : Text) → text_less s t ≡ true → text_less t u ≡ true → text_less s u ≡ true
unfolding text_less
less_trans [] [] u h k = cc
less_trans [] (_ ∷ _) [] h k = cc
less_trans [] (_ ∷ _) (_ ∷ _) h k = refl
less_trans (_ ∷ _) [] u h k = cc
less_trans (_ ∷ _) (_ ∷ _) [] h k = cc
less_trans (a ∷ s) (b ∷ t) (c ∷ u) h k = ground (arith, less_trans s t u)

pub less_total : (s t : Text) → text_less s t ≡ false → text_eq s t ≡ false → text_less t s ≡ true
unfolding text_less text_eq
less_total [] [] h k = cc
less_total [] (_ ∷ _) h k = cc
less_total (_ ∷ _) [] h k = refl
less_total (a ∷ s) (b ∷ t) h k = ground (arith, less_total s t)

pub less-not_eq : (s t : Text) → text_less s t ≡ true → text_eq t s ≡ false
unfolding text_less text_eq
less-not_eq [] [] h = cc
less-not_eq [] (_ ∷ _) h = refl
less-not_eq (_ ∷ _) [] h = cc
less-not_eq (a ∷ s) (b ∷ t) h = ground (arith, less-not_eq s t)

pub less-differs : (s t : Text) → text_less s t ≡ true → text_eq s t ≡ false
unfolding text_less text_eq
less-differs [] [] h = cc
less-differs [] (_ ∷ _) h = refl
less-differs (_ ∷ _) [] h = refl
less-differs (a ∷ s) (b ∷ t) h = ground (arith, less-differs s t)
