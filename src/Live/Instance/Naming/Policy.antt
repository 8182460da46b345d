-- ===== src/Live/Instance/Naming/Policy.antt =====
-- The hostname policy of specs/health-check.json, for the tests.
use fptcloud_hc_automation_m.Base.{
  ℕ, String, Bool, true, false, List, [], ◌∷◌, ◌≡◌, refl, ◌&&◌, ◌||◌, if◌then◌else◌, leb, eqb, mem,
  all, codes, is_prefix,
}
use fptcloud_hc_automation_m.Inventory.{alnum}
use fptcloud_hc_automation_m.Live.Instance.Naming.{instance_image_matrix, guest_hostname_for_label}
use fptcloud_hc_automation_m.Live.Instance.Naming.Laws.{IsRandom, is_short, each_mem}

pub abc123-IsRandom : IsRandom "abc123"
unfolding all alnum
abc123-IsRandom = record { six = refl; letters = refl }

-- The lengths of specs/health-check.json.
abbrev pub policy : String → ℕ
policy l = if is_prefix (codes "windows-") (codes l) then 15 else 63

-- ^[A-Za-z][A-Za-z0-9-]*[A-Za-z0-9]$ for small letters.
abbrev rest_matches : List ℕ → Bool
rest_matches [] = false
rest_matches (x ∷ []) = alnum x
rest_matches (x ∷ y ∷ ys) = (alnum x || eqb x b'-') && rest_matches (y ∷ ys)

abbrev starts : List ℕ → Bool
starts [] = false
starts (x ∷ xs) = leb b'a' x && leb x b'z' && rest_matches xs

abbrev pub matches_policy : String → Bool
matches_policy s = starts (codes s)

pub all_short :
    (l : String)
    → mem l instance_image_matrix ≡ true
    → is_short (policy l) (guest_hostname_for_label "abc123" l) ≡ true
unfolding instance_image_matrix guest_hostname_for_label alnum
all_short l h =
    each_mem (λ l. is_short (policy l) (guest_hostname_for_label "abc123" l) ≡ true)
      instance_image_matrix l (refl, (refl, (refl, (refl, (refl, (refl, (refl, (refl, tt)))))))) h

pub all_match :
    (l : String)
    → mem l instance_image_matrix ≡ true
    → matches_policy (guest_hostname_for_label "abc123" l) ≡ true
unfolding instance_image_matrix guest_hostname_for_label alnum
all_match l h =
    each_mem (λ l. matches_policy (guest_hostname_for_label "abc123" l) ≡ true)
      instance_image_matrix l (refl, (refl, (refl, (refl, (refl, (refl, (refl, (refl, tt)))))))) h
