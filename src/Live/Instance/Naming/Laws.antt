-- ===== src/Live/Instance/Naming/Laws.antt =====
-- What the inventory says of the instances that a run creates.
use Prim.Native.String.{◌++◌ as text_append}
use fptcloud_hc_automation_m.Base.{
  ℕ, ◌+◌, ◌≤◌, String, Bool, true, false, List, [], ◌∷◌, ◌++◌, ◌≡◌, ◌↔◌, refl, arith, ◌==◌, codes,
  codes-append, lower, lower_code, map, all, any, mem, length, length-append, ◌∙◌, ap, ◌&&◌, ◌||◌,
  leb, Bool-cases, inl, inr, eq_iff, same_codes, sym,
}
use mathlib.Core.Path.{subst}
use fptcloud_hc_automation_m.Inventory.{
  InventoryInstance, TagEntry, alnum, is_hc_name, is_hc_tagged, of_run,
}
use fptcloud_hc_automation_m.Inventory.Laws.{IsReclaimable}
use fptcloud_hc_automation_m.Inventory.Names.{hcw_name, hcl_name}
use fptcloud_hc_automation_m.Live.Instance.Naming.{
  instance_image_matrix, build_hc_instance_tags, windows, linux, os_family, name_of,
  guest_hostname_for_label, validate_guest_hostname, label_version_token, first_chars, replaced,
  joined_digits, default_length,
}

-- What hostname_random gives: six small letters and digits.
pub record IsRandom (random : String) : Type 0 where
  pub six : length (codes random) ≡ 6
  pub letters : all alnum (codes random) ≡ true

lower_alnum : (xs : List ℕ) → all alnum xs ≡ true → map lower_code xs ≡ xs
unfolding alnum all
lower_alnum [] h = refl
lower_alnum (x ∷ xs) h = ground (arith, lower_alnum xs)

map-append : (f : ℕ → ℕ) (xs ys : List ℕ) → map f (xs ++ ys) ≡ map f xs ++ map f ys
map-append f [] ys = refl
map-append f (x ∷ xs) ys = ap (◌∷◌ (f x)) (map-append f xs ys)

all-append :
    (xs ys : List ℕ) → all alnum xs ≡ true → all alnum ys ≡ true → all alnum (xs ++ ys) ≡ true
unfolding all
all-append [] ys h k = k
all-append (x ∷ xs) ys h k = ground (arith, all-append xs ys)

abbrev pub Each {κ} : (String → Type κ) → List String → Type κ
Each P [] = Unit
Each P (x ∷ xs) = P x × Each P xs

pub each_mem {κ} :
    (P : String → Type κ) (xs : List String) (label : String)
    → Each P xs
    → mem label xs ≡ true
    → P label
unfolding mem
each_mem P [] label a h = cc
each_mem P (x ∷ xs) label a h = elim (Bool-cases (x == label)) [
  | inl same ↦ subst P ((eq_iff x label).0 same) a.0
  | inr other ↦ each_mem P xs label a.1 (rw other at h)
]

-- The policy's greatest length, if it has one, leaves room for the name.
abbrev pub is_short : ℕ → String → Bool
is_short policy_length name = leb policy_length 0 || leb (length (codes name)) policy_length

module _ (random : String) (m : IsRandom random) where
  -- The name of a Windows instance, whose version has four digits.
  windows_name :
      (token : String)
      → length (codes token) ≡ 4
      → all alnum (codes token) ≡ true
      → let name : String = text_append "hcw" (text_append token random) in
        (is_hc_name name ≡ true) × (length (codes name) ≡ 13)
  unfolding lower
  windows_name token l h =
      let name : String = text_append "hcw" (text_append token random) in
      let xs = codes token ++ codes random in
      let fine = all-append (codes token) (codes random) h m.letters in
      let e : codes name ≡ codes "hcw" ++ xs =
        codes-append "hcw" (text_append token random)
        ∙ ap (λ ys. codes "hcw" ++ ys) (codes-append token random) in
      let size = length-append (codes token) (codes random) in
      (
        hcw_name name xs
            (ap (map lower_code) e ∙ ap (λ ys. codes "hcw" ++ ys) (lower_alnum xs fine)) fine
            (omega (arith, size, l, m.six)) (omega (arith, size, l, m.six)),
        omega (arith, ap length e, size, l, m.six),
      )

  -- The name of a Linux instance.
  linux_name :
      (short : String)
      → all alnum (codes short) ≡ true
      → 8 ≤ length (codes short)
      → let name : String = text_append "hcl-" (text_append short (text_append "-" random)) in
        (is_hc_name name ≡ true) × (length (codes name) ≡ length (codes short) + 11)
  unfolding lower
  linux_name short h l =
      let tail : String = text_append "-" random in
      let name : String = text_append "hcl-" (text_append short tail) in
      let xs = codes short in
      let ys = codes tail in
      let e : codes name ≡ codes "hcl-" ++ (xs ++ ys) =
        codes-append "hcl-" (text_append short tail)
        ∙ ap (λ zs. codes "hcl-" ++ zs) (codes-append short tail) in
      let small : map lower_code (xs ++ ys) ≡ xs ++ map lower_code ys =
        map-append lower_code xs ys ∙ ap (λ zs. zs ++ map lower_code ys) (lower_alnum xs h) in
      (
        hcl_name name xs (map lower_code ys)
            (ap (map lower_code) e ∙ ap (λ zs. codes "hcl-" ++ zs) small) h l,
        omega (arith, ap length e, length-append xs ys, ap length (codes-append "-" random), m.six),
      )

  -- A name that the inventory takes for a health check's, and that is valid if it matches the
  -- pattern and is not longer than the policy allows.
  abbrev pub IsNamed : String → Type 0
  IsNamed label =
      (is_hc_name (guest_hostname_for_label random label) ≡ true)
      × ((policy_length : ℕ) (matches : String → Bool)
          → is_short policy_length (guest_hostname_for_label random label) ≡ true
          → matches (guest_hostname_for_label random label) ≡ true
          → validate_guest_hostname policy_length matches label
              (guest_hostname_for_label random label)
            ≡ [])

  windows-IsNamed :
      (label token : String)
      → guest_hostname_for_label random label ≡ text_append "hcw" (text_append token random)
      → os_family label ≡ windows
      → length (codes token) ≡ 4
      → all alnum (codes token) ≡ true
      → IsNamed label
  unfolding validate_guest_hostname default_length
  windows-IsNamed label token e f l h =
      let n = windows_name token l h in
      (
        rw e n.0,
        λ policy matches j k. rw (f, k) (ground (arith, j, n.1, ap (λ s. length (codes s)) e)),
      )

  linux-IsNamed :
      (label short : String)
      → guest_hostname_for_label random label
        ≡ text_append "hcl-" (text_append short (text_append "-" random))
      → os_family label ≡ linux
      → length (codes short) ≡ 10
      → all alnum (codes short) ≡ true
      → IsNamed label
  unfolding validate_guest_hostname default_length
  linux-IsNamed label short e f l h =
      let n = linux_name short h (omega (arith, l)) in
      (
        rw e n.0,
        λ policy matches j k. rw (f, k) (ground (arith, j, n.1, l, ap (λ s. length (codes s)) e)),
      )

  pub guest_name : (label : String) → mem label instance_image_matrix ≡ true → IsNamed label
  unfolding instance_image_matrix guest_hostname_for_label name_of os_family label_version_token
      joined_digits first_chars replaced all alnum
  guest_name label h =
      each_mem IsNamed instance_image_matrix label
        (
          windows-IsNamed "windows-2012" "2012" refl refl refl refl,
          (
            windows-IsNamed "windows-2016" "2016" refl refl refl refl,
            (
              windows-IsNamed "windows-2019" "2019" refl refl refl refl,
              (
                windows-IsNamed "windows-2022" "2022" refl refl refl refl,
                (
                  linux-IsNamed "ubuntu-16-04" "ubuntu1604" refl refl refl refl,
                  (
                    linux-IsNamed "ubuntu-18-04" "ubuntu1804" refl refl refl refl,
                    (
                      linux-IsNamed "ubuntu-20-04" "ubuntu2004" refl refl refl refl,
                      (linux-IsNamed "ubuntu-22-04" "ubuntu2204" refl refl refl refl, tt),
                    ),
                  ),
                ),
              ),
            ),
          ),
        )
        h

any_of_map :
    (f : String × String → Bool) (ts : List TagEntry)
    → any (λ t. f (t.key, t.value)) ts ≡ any f (map (λ t. (t.key, t.value)) ts)
unfolding any
any_of_map f [] = refl
any_of_map f (t ∷ ts) = ap (λ b. f (t.key, t.value) || b) (any_of_map f ts)

module _ (i : InventoryInstance) (run_id vpc_name os_label created_at q : String)
    (e : map (λ t. (t.key, t.value)) i.tags
      ≡ build_hc_instance_tags run_id vpc_name os_label created_at) where
  tags-IsHcTagged : is_hc_tagged i ≡ true
  unfolding is_hc_tagged
  tags-IsHcTagged =
      any_of_map
        (λ t.
          (t.0 == "managed_by" && t.1 == "health-check")
          || (t.0 == "health_check" && same_codes (lower t.1) (codes "true")))
        i.tags
      ∙ rw e (unfold build_hc_instance_tags any lower in refl)

  tags-of_run : of_run q i ≡ (run_id == q)
  unfolding of_run
  tags-of_run =
      any_of_map (λ t. t.0 == "hc_run_id" && t.1 == q) i.tags
      ∙ rw e (unfold build_hc_instance_tags any in ground arith)

-- An instance with a generated name and the tags of a run, for an image of the matrix. Its name has
-- no error if it matches the pattern and is not longer than the policy allows; and to the inventory
-- it is reclaimable in exactly the other runs.
pub created_iff :
    (label random run_id vpc_name created_at q : String) (policy_length : ℕ)
    (matches : String → Bool) (i : InventoryInstance)
    → mem label instance_image_matrix ≡ true
    → IsRandom random
    → is_short policy_length (guest_hostname_for_label random label) ≡ true
    → matches (guest_hostname_for_label random label) ≡ true
    → i.name ≡ guest_hostname_for_label random label
    → map (λ t. (t.key, t.value)) i.tags ≡ build_hc_instance_tags run_id vpc_name label created_at
    → (validate_guest_hostname policy_length matches label i.name ≡ [])
      × (IsReclaimable q i ↔ ((run_id == q) ≡ false))
created_iff label random run_id vpc_name created_at q policy_length matches i l m j k n e =
    let (named, valid) = guest_name random m label l in
    let own = tags-of_run i run_id vpc_name label created_at q e in
    (
      rw n (valid policy_length matches j k),
      (
        λ r. sym own ∙ r.other_run,
        λ other. record {
          named = rw n named;
          tagged = tags-IsHcTagged i run_id vpc_name label created_at q e;
          other_run = own ∙ other;
        },
      ),
    )
