-- ===== src/Strings/Tests.antt =====
-- Runs of the functions that compare and search strings.
use ne_xs_operate_system.Base.{ℕ, none, some, ◌≡◌, refl, List, [], ◌∷◌}
use ne_xs_operate_system.Strings.{strchr, strcmp}

abbrev kbd : List ℕ
kbd = b'k' ∷ b'b' ∷ b'd' ∷ []

abbrev key : List ℕ
key = b'k' ∷ b'e' ∷ b'y' ∷ []

strcmp_run :
    (strcmp kbd key ≡ (b'b', b'e')) × (strcmp kbd kbd ≡ (0, 0)) × (strcmp [] key ≡ (0, b'k'))
unfolding strcmp
strcmp_run = (refl, refl, refl)

strchr_run : (strchr kbd b'd' ≡ some 2) × (strchr kbd 0 ≡ none)
unfolding strchr
strchr_run = (refl, refl)
