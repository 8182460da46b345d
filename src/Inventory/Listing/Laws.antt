-- ===== src/Inventory/Listing/Laws.antt =====
-- What the listing says of each instance's tags.
use mathlib.Core.Path.{subst}
use mathlib.Core.List.Memᴰ
use mathlib.Core.List.{Memᴰ}
use fptcloud_hc_automation_m.Base.{
  String, true, false, ◌||◌, Option, none, some, List, [], ◌∷◌, ◌==◌, ◌≡◌, ◌≢◌, any, ◌⊎◌, inl, inr,
  refl, arith, Bool-cases,
}
use fptcloud_hc_automation_m.Queue.Json.{Json, Members}
use fptcloud_hc_automation_m.Inventory.{
  TagEntry, InventoryInstance, is_hc_name, is_hc_tagged, of_run, select_oldest_reclaimable,
}
use fptcloud_hc_automation_m.Inventory.Laws.{select_iff}
use fptcloud_hc_automation_m.Inventory.Listing.{
  tags_url, list_instance_tags, read_instance, read_all, list_vpc_instances, records_of, put_first,
  instances_url, text_at, tagged_instance, instance_of,
}

joined :
    (o : Option (Option InventoryInstance)) (later : Option (List InventoryInstance))
    (is_ : List InventoryInstance) (i : InventoryInstance)
    → Path
        (Option (List InventoryInstance))
        (elim o [ none ↦ none | some x ↦ put_first x later ])
        (some is_)
    → Memᴰ i is_
    → (o ≡ some (some i)) ⊎ ((xs : List InventoryInstance) × (later ≡ some xs) × Memᴰ i xs)
joined none later is_ i h m = cc
joined (some x) none is_ i h m = cc
joined (some none) (some xs) is_ i h m = let e : is_ ≡ xs = cc in inr (xs, refl, subst (Memᴰ i) e m)
joined (some (some j)) (some xs) is_ i h m =
    let e : is_ ≡ j ∷ xs = cc in
    elim (subst (Memᴰ i) e m) [ Memᴰ.head f ↦ inl (rw f refl) | Memᴰ.tail n ↦ inr (xs, refl, n) ]

untagged : (i : InventoryInstance) → i.tags ≡ [] → is_hc_tagged i ≢ true
unfolding is_hc_tagged any
untagged i e h = cc (rw e at h)

module _ (text_of : Json → String) (fetch : String → Option Json) where
  -- What holds of an instance of the listing: it has an id and a name, and its tags are those of
  -- its own tag request if its name is a health check's, and none otherwise.
  pub record IsListed (base vpc_id : String) (i : InventoryInstance) : Type 0 where
    pub has_id : (i.instance_id == "") ≡ false
    pub has_name : (i.name == "") ≡ false
    pub own_tags :
        is_hc_name i.name ≡ true
        → list_instance_tags text_of fetch base vpc_id i.instance_id ≡ some i.tags
    pub no_tags : is_hc_name i.name ≡ false → i.tags ≡ []

  module _ (base vpc_id : String) where
    own_none :
        (i : InventoryInstance)
        → list_instance_tags text_of fetch base vpc_id i.instance_id ≡ some i.tags
        → fetch (tags_url text_of fetch base vpc_id i.instance_id) ≡ none
        → i.tags ≡ []
    unfolding list_instance_tags
    own_none i h e = let f = rw (list_instance_tags, e) at h in cc

    tagged_lem :
        (item : Members) (tags : Option (List TagEntry)) (i : InventoryInstance)
        → tagged_instance text_of fetch vpc_id item tags ≡ some (some i)
        → (i.instance_id ≡ text_at text_of fetch "id" "instance_id" item)
          × (i.name ≡ text_at text_of fetch "name" "host_name" item)
          × (tags ≡ some i.tags)
    unfolding tagged_instance instance_of
    tagged_lem item none i h = cc
    tagged_lem item (some tags) i h = (ground arith, ground arith, ground arith)

    read_lem :
        (item : Members) (i : InventoryInstance)
        → read_instance text_of fetch true base vpc_id item ≡ some (some i)
        → IsListed base vpc_id i
    unfolding read_instance
    read_lem item i h =
        let id = text_at text_of fetch "id" "instance_id" item in
        let name = text_at text_of fetch "name" "host_name" item in
        elim (Bool-cases (id == "" || name == "")) [
          | inl out ↦ cc (rw out at h)
          | inr in_ ↦ elim (Bool-cases (is_hc_name name)) [
            | inl hc ↦
                let (a, b, e) =
                  tagged_lem item (list_instance_tags text_of fetch base vpc_id id) i
                    (rw (in_, hc) at h) in
                record {
                  has_id = rw a (ground arith);
                  has_name = rw b (ground arith);
                  own_tags = λ g. rw a e;
                  no_tags = λ g. ground arith;
                }
            | inr not_hc ↦
                let (a, b, e) =
                  tagged_lem item (some []) i (unfold tagged_instance in rw (in_, not_hc) at h) in
                record {
                  has_id = rw a (ground arith);
                  has_name = rw b (ground arith);
                  own_tags = λ g. ground arith;
                  no_tags = λ g. ground arith;
                }
          ]
        ]

    all_lem :
        (ds : List Members) (is_ : List InventoryInstance) (i : InventoryInstance)
        → read_all text_of fetch true base vpc_id ds ≡ some is_
        → Memᴰ i is_
        → IsListed base vpc_id i
    unfolding read_all
    all_lem [] is_ i h m = let e : is_ ≡ [] = cc in absurd (Memᴰ.not-nil (subst (Memᴰ i) e m))
    all_lem (d ∷ ds) is_ i h m =
        elim (joined (read_instance text_of fetch true base vpc_id d)
          (read_all text_of fetch true base vpc_id ds) is_ i h m) [
            | inl here ↦ read_lem d i here
            | inr (xs, e, n) ↦ all_lem ds xs i e n
          ]

    pub listed_lem :
        (is_ : List InventoryInstance) (i : InventoryInstance)
        → list_vpc_instances text_of fetch true base vpc_id ≡ some is_
        → Memᴰ i is_
        → IsListed base vpc_id i
    unfolding list_vpc_instances
    listed_lem is_ i h m = found (fetch (instances_url text_of fetch base vpc_id)) h
      where
        found :
            (data_ : Option Json)
            → Path
                (Option (List InventoryInstance))
                (elim data_ [
                  | none ↦ some []
                  | some doc ↦ elim (records_of "instances" doc) [
                    | none ↦ none
                    | some ds ↦ read_all text_of fetch true base vpc_id ds
                  ]
                ])
                (some is_)
            → IsListed base vpc_id i
        found none e = let f : is_ ≡ [] = cc in absurd (Memᴰ.not-nil (subst (Memᴰ i) f m))
        found (some doc) e = parsed (records_of "instances" doc) e
          where
            parsed :
                (rs : Option (List Members))
                → Path
                    (Option (List InventoryInstance))
                    (elim rs [ none ↦ none | some ds ↦ read_all text_of fetch true base vpc_id ds ])
                    (some is_)
                → IsListed base vpc_id i
            parsed none f = cc
            parsed (some ds) f = all_lem ds is_ i f m

    -- An instance that is selected from the listing had its own tag request answered, and one of
    -- the answer's tags proves that a health check made it: where the tags cannot be read, nothing
    -- is reclaimed.
    pub selected_proof :
        (is_ : List InventoryInstance) (run_id : String) (i : InventoryInstance)
        → list_vpc_instances text_of fetch true base vpc_id ≡ some is_
        → select_oldest_reclaimable is_ run_id ≡ some i
        → (fetch (tags_url text_of fetch base vpc_id i.instance_id) ≢ none)
          × (list_instance_tags text_of fetch base vpc_id i.instance_id ≡ some i.tags)
          × (is_hc_tagged i ≡ true)
          × (of_run run_id i ≡ false)
    selected_proof is_ run_id i h k =
        let (there, able, first) = (select_iff is_ run_id).1 i k in
        let listed = listed_lem is_ i h there in
        let own = listed.own_tags able.named in
        (λ gone. untagged i (own_none i own gone) able.tagged, own, able.tagged, able.other_run)
