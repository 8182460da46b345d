-- ===== src/Inventory/Laws.antt =====
-- The choice of the instance to reclaim.
use mathlib.Core.Path.{subst}
use mathlib.Core.List.Memᴰ
use mathlib.Core.List.{Memᴰ}
use fptcloud_hc_automation_m.Base.{
  ℕ, String, Bool, true, false, ◌&&◌, ◌||◌, Option, none, some, List, [], ◌∷◌, ◌≡◌, ◌⊎◌, ◌↔◌, inl,
  inr, refl, arith, if◌then◌else◌, ◌∙◌, keep, codes, same_codes, Bool-cases,
}
use fptcloud_hc_automation_m.Inventory.{
  InventoryInstance, is_hc_name, is_hc_tagged, of_run, is_eligible, age_key, lex_leb, lex_ltb,
  key_leb, insert_by, sort_by_key, first_of, select_oldest_reclaimable,
}

same_codes_eq : (xs ys : List ℕ) → same_codes xs ys ≡ true → xs ≡ ys
same_codes_eq [] [] h = refl
same_codes_eq [] (y ∷ ys) h = cc
same_codes_eq (x ∷ xs) [] h = cc
same_codes_eq (x ∷ xs) (y ∷ ys) h =
    let e : x ≡ y = ground arith in let f = same_codes_eq xs ys (ground arith) in cc

same_codes_refl : (xs : List ℕ) → same_codes xs xs ≡ true
same_codes_refl [] = refl
same_codes_refl (x ∷ xs) = ground (arith, same_codes_refl xs)

lex_total : (xs ys : List ℕ) → lex_leb xs ys ≡ false → lex_leb ys xs ≡ true
unfolding lex_leb
lex_total [] ys h = cc
lex_total (x ∷ xs) [] h = refl
lex_total (x ∷ xs) (y ∷ ys) h = ground (arith, lex_total xs ys)

lex_trans : (xs ys zs : List ℕ) → lex_leb xs ys ≡ true → lex_leb ys zs ≡ true → lex_leb xs zs ≡ true
unfolding lex_leb
lex_trans [] ys zs h k = refl
lex_trans (x ∷ xs) [] zs h k = cc
lex_trans (x ∷ xs) (y ∷ ys) [] h k = cc
lex_trans (x ∷ xs) (y ∷ ys) (z ∷ zs) h k = ground (arith, lex_trans xs ys zs)

lex_antisym :
    (xs ys : List ℕ) → lex_leb xs ys ≡ true → lex_leb ys xs ≡ true → same_codes xs ys ≡ true
unfolding lex_leb
lex_antisym [] [] h k = refl
lex_antisym [] (y ∷ ys) h k = cc
lex_antisym (x ∷ xs) [] h k = cc
lex_antisym (x ∷ xs) (y ∷ ys) h k = ground (arith, lex_antisym xs ys)

same_codes_sym : (xs ys : List ℕ) → same_codes xs ys ≡ true → same_codes ys xs ≡ true
same_codes_sym xs ys h = rw (same_codes_eq xs ys h) (same_codes_refl ys)

-- The order of pairs of texts.
abbrev pair_leb : List ℕ → List ℕ → List ℕ → List ℕ → Bool
pair_leb t a u b = lex_ltb t u || (same_codes t u && lex_leb a b)

pair_trans :
    (t a u b v c : List ℕ)
    → pair_leb t a u b ≡ true
    → pair_leb u b v c ≡ true
    → pair_leb t a v c ≡ true
pair_trans t a u b v c h k = ground (
  arith,
  lex_trans t u v,
  lex_trans a b c,
  lex_antisym t u,
  lex_antisym u v,
  same_codes_eq t u,
  same_codes_eq u v,
  same_codes_eq t v,
)

pair_total : (t a u b : List ℕ) → pair_leb t a u b ≡ false → pair_leb u b t a ≡ true
pair_total t a u b h =
    ground
      (arith, lex_total t u, lex_total a b, lex_antisym u t, same_codes_sym u t, same_codes_sym t u)

module _ (i j k : InventoryInstance) where
  key_total : key_leb i j ≡ false → key_leb j i ≡ true
  unfolding key_leb
  key_total h =
      let (t, a) = age_key i in
      let (u, b) = age_key j in ground (arith, pair_total (codes t) (codes a) (codes u) (codes b))

  key_trans : key_leb i j ≡ true → key_leb j k ≡ true → key_leb i k ≡ true
  unfolding key_leb
  key_trans h l =
      let (t, a) = age_key i in
      let (u, b) = age_key j in
      let (v, c) = age_key k in
      ground (arith, pair_trans (codes t) (codes a) (codes u) (codes b) (codes v) (codes c))

key_refl : (i : InventoryInstance) → key_leb i i ≡ true
key_refl i = elim (Bool-cases (key_leb i i)) [ inl yes_ ↦ yes_ | inr no_ ↦ key_total i i i no_ ]

choose : InventoryInstance → Option InventoryInstance → InventoryInstance
choose i none = i
choose i (some h) = if key_leb i h then i else h

first-insert :
    (i : InventoryInstance) (xs : List InventoryInstance)
    → first_of (insert_by i xs) ≡ some (choose i (first_of xs))
unfolding first_of insert_by choose
first-insert i [] = refl
first-insert i (h ∷ xs) = ground arith

-- One of the instances, that comes before all of them.
pub record IsFirst (i : InventoryInstance) (xs : List InventoryInstance) : Type 0 where
  pub among : Memᴰ i xs
  pub before : (j : InventoryInstance) → Memᴰ j xs → key_leb i j ≡ true

IsFirst-cons :
    (i h : InventoryInstance) (xs : List InventoryInstance)
    → IsFirst h xs
    → IsFirst (choose i (some h)) (i ∷ xs)
unfolding choose
IsFirst-cons i h xs m = elim (Bool-cases (key_leb i h)) [
  | inl yes_ ↦ rw yes_ (record {
    among = Memᴰ.head refl;
    before = λ j p. elim p [
      | Memᴰ.head e ↦ rw e (key_refl i)
      | Memᴰ.tail q ↦ key_trans i h j yes_ (m.before j q)
    ];
  })
  | inr no_ ↦ rw no_ (record {
    among = Memᴰ.tail m.among;
    before =
        λ j p. elim p [ Memᴰ.head e ↦ rw e (key_total i h h no_) | Memᴰ.tail q ↦ m.before j q ];
  })
]

first_lem :
    (xs : List InventoryInstance)
    → ((first_of (sort_by_key xs) ≡ none) × (xs ≡ []))
      ⊎ ((i : InventoryInstance) × (first_of (sort_by_key xs) ≡ some i) × IsFirst i xs)
unfolding sort_by_key first_of choose
first_lem [] = inl (refl, refl)
first_lem (i ∷ xs) = elim (first_lem xs) [
  | inl (e, f) ↦ inr (
    i,
    first-insert i (sort_by_key xs) ∙ rw e refl,
    rw f (record {
      among = Memᴰ.head refl;
      before =
          λ j p. elim p [ Memᴰ.head e ↦ rw e (key_refl i) | Memᴰ.tail q ↦ absurd (Memᴰ.not-nil q) ];
    }),
  )
  | inr (h, e, m) ↦
      inr (choose i (some h), first-insert i (sort_by_key xs) ∙ rw e refl, IsFirst-cons i h xs m)
]

module _ (p : InventoryInstance → Bool) where
  kept :
      (i : InventoryInstance) (xs : List InventoryInstance)
      → Memᴰ i xs
      → p i ≡ true
      → Memᴰ i (keep p xs)
  unfolding keep
  kept i [] m h = absurd (Memᴰ.not-nil m)
  kept i (x ∷ xs) (Memᴰ.head e) h = let px : p x ≡ true = rw (← e) h in rw px (Memᴰ.head e)
  kept i (x ∷ xs) (Memᴰ.tail m) h = elim (Bool-cases (p x)) [
    | inl yes_ ↦ rw yes_ (Memᴰ.tail (kept i xs m h))
    | inr no_ ↦ rw no_ (kept i xs m h)
  ]

  kept_from :
      (i : InventoryInstance) (xs : List InventoryInstance)
      → Memᴰ i (keep p xs)
      → Memᴰ i xs × (p i ≡ true)
  unfolding keep
  kept_from i [] m = absurd (Memᴰ.not-nil m)
  kept_from i (x ∷ xs) m = elim (Bool-cases (p x)) [
    | inl yes_ ↦ elim (rw yes_ at m) [
      | Memᴰ.head e ↦ (Memᴰ.head e, rw e yes_)
      | Memᴰ.tail q ↦ let (r, h) = kept_from i xs q in (Memᴰ.tail r, h)
    ]
    | inr no_ ↦ let (r, h) = kept_from i xs (rw no_ at m) in (Memᴰ.tail r, h)
  ]

-- What makes an instance reclaimable in the run: its name and a tag say that a health check made
-- it, and no tag says that this run did.
pub record IsReclaimable (run_id : String) (i : InventoryInstance) : Type 0 where
  pub named : is_hc_name i.name ≡ true
  pub tagged : is_hc_tagged i ≡ true
  pub other_run : of_run run_id i ≡ false

eligible_iff :
    (run_id : String) (i : InventoryInstance)
    → (is_eligible run_id i ≡ true) ↔ IsReclaimable run_id i
unfolding is_eligible
eligible_iff run_id i = (
  λ h. record { named = ground arith; tagged = ground arith; other_run = ground arith },
  λ m. ground (arith, m.named, m.tagged, m.other_run),
)

-- Nothing is selected exactly if no instance is reclaimable; what is selected is a reclaimable
-- instance of the list that comes before every other one in the order of priority, then of age,
-- then of id.
pub select_iff :
    (instances : List InventoryInstance) (run_id : String)
    → ((select_oldest_reclaimable instances run_id ≡ none)
        ↔ ((j : InventoryInstance) → Memᴰ j instances → ¬ IsReclaimable run_id j))
      × ((i : InventoryInstance)
          → select_oldest_reclaimable instances run_id ≡ some i
          → Memᴰ i instances
            × IsReclaimable run_id i
            × ((j : InventoryInstance)
                → Memᴰ j instances
                → IsReclaimable run_id j
                → key_leb i j ≡ true))
unfolding select_oldest_reclaimable
select_iff instances run_id =
    let p = is_eligible run_id in
    elim (first_lem (keep p instances)) [
      | inl (e, f) ↦ (
        (
          λ h j m r.
              Memᴰ.not-nil (subst (Memᴰ j) f (kept p j instances m ((eligible_iff run_id j).1 r))),
          λ h. e,
        ),
        λ i h. cc,
      )
      | inr (i, e, m) ↦
          let (there, able) = kept_from p i instances m.among in
          (
            (λ h. cc, λ h. absurd (h i there ((eligible_iff run_id i).0 able))),
            λ k h.
                let same : i ≡ k = cc in
                subst
                  (λ x.
                    Memᴰ x instances
                    × IsReclaimable run_id x
                    × ((j : InventoryInstance)
                        → Memᴰ j instances
                        → IsReclaimable run_id j
                        → key_leb x j ≡ true))
                  same
                  (
                    there,
                    (eligible_iff run_id i).0 able,
                    λ j n r. m.before j (kept p j instances n ((eligible_iff run_id j).1 r)),
                  ),
          )
    ]
