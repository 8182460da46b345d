-- ===== src/Live/Reclaim/Laws.antt =====
-- What a reclamation does to instances: which command is given for which of them.
use mathlib.Core.Path.{subst}
use fptcloud_hc_automation_m.Base.{
  String, Bool, true, false, ◌||◌, Option, none, some, List, ◌∷◌, ◌==◌, ◌≡◌, ◌≢◌, ◌⊎◌, inl, inr,
  refl, arith, Bool-cases,
}
use fptcloud_hc_automation_m.Queue.Json.{Json}
use fptcloud_hc_automation_m.Inventory.{InventoryInstance, select_oldest_reclaimable}
use fptcloud_hc_automation_m.Inventory.Laws.{IsReclaimable, select_iff}
use fptcloud_hc_automation_m.Inventory.Listing.{list_vpc_instances, tags_url}
use fptcloud_hc_automation_m.Inventory.Listing.Laws.{selected_proof}
use fptcloud_hc_automation_m.Live.{
  World, Terraform, Command, Operation, succeeds, output_of, give, emit, answer, init,
  import_instance, destroy_imported,
}
use fptcloud_hc_automation_m.Live.Reclaim.{
  fails, refused_import, destroying, importing, terraform_reclaim_import_destroy, Reclaimed,
  refused, reclaim_stage, concluded, reclaim_chosen, reclaim_listed, reclaim_health_check_instance,
}

-- The courses that a deletion takes after the commands `before`: it stops at the first command that
-- fails, and the instance is deleted if none does.
pub data IsDeletion (tf : Terraform) (workspace instance_id : String) (before : List Command)
    : Bool → List Command → Type 0 where
  init_failed :
      succeeds (tf before (record { workspace = workspace; operation = init })) ≡ false
      → IsDeletion tf workspace instance_id before false
          (record { workspace = workspace; operation = init } ∷ before)
  import_failed :
      (given : List Command)
      → given ≡ record { workspace = workspace; operation = init } ∷ before
      → succeeds (tf before (record { workspace = workspace; operation = init })) ≡ true
      → succeeds
          (tf given (record { workspace = workspace; operation = import_instance instance_id }))
        ≡ false
      → IsDeletion tf workspace instance_id before false
          (record { workspace = workspace; operation = import_instance instance_id } ∷ given)
  imported :
      (given : List Command) (ended : Bool)
      → given
        ≡ record { workspace = workspace; operation = import_instance instance_id }
          ∷ record { workspace = workspace; operation = init }
          ∷ before
      → succeeds (tf before (record { workspace = workspace; operation = init })) ≡ true
      → succeeds (
          tf
            (record { workspace = workspace; operation = init } ∷ before)
            (record { workspace = workspace; operation = import_instance instance_id }))
        ≡ true
      → succeeds (tf given (record { workspace = workspace; operation = destroy_imported })) ≡ ended
      → IsDeletion tf workspace instance_id before ended
          (record { workspace = workspace; operation = destroy_imported } ∷ given)

module _ (tf : Terraform) (stage instance_id workspace : String) where
  refused_import_lem :
      (text : String) (w : World)
      → ((refused_import tf stage text w).0 ≡ false)
        × ((refused_import tf stage text w).1.given ≡ w.given)
  unfolding refused_import fails emit
  refused_import_lem text w = ground arith

  -- A deletion takes one of its courses, and says whether the instance is deleted.
  pub deletion_lem :
      (w : World)
      → let done : Bool × World =
          terraform_reclaim_import_destroy tf stage instance_id workspace w in
        IsDeletion tf workspace instance_id w.given done.0 done.1.given
  unfolding terraform_reclaim_import_destroy importing destroying fails emit give answer
  deletion_lem w =
      let Given = List Command in
      let first : Command = record { workspace = workspace; operation = init } in
      let second : Command = record {
        workspace = workspace;
        operation = import_instance instance_id;
      } in
      let third : Command = record { workspace = workspace; operation = destroy_imported } in
      let g1 : Given = first ∷ w.given in
      let g2 : Given = second ∷ g1 in
      elim (Bool-cases (succeeds (tf w.given first))) [
        | inr bad ↦ rw bad (IsDeletion.init_failed bad)
        | inl ok1 ↦ rw ok1 (elim (Bool-cases (succeeds (tf g1 second))) [
          | inr bad ↦
              let text : String = output_of (tf g1 second) in
              let (no_, same) =
                refused_import_lem text
                  (give workspace (import_instance instance_id) (give workspace init w)) in
              rw (bad, no_, same) (IsDeletion.import_failed g1 refl ok1 bad)
          | inl ok2 ↦ rw ok2 (elim (Bool-cases (succeeds (tf g2 third))) [
            | inl ok3 ↦ rw ok3 (IsDeletion.imported g2 true refl ok1 ok2 ok3)
            | inr bad ↦ rw bad (IsDeletion.imported g2 false refl ok1 ok2 bad)
          ])
        ])
      ]

abbrev is_deleted : Operation → Bool
is_deleted destroy_imported = true
is_deleted _ = false

module _ (text_of : Json → String) (fetch : String → Option Json) (tf : Terraform)
    (api_url base token : String) (reclaim_root : String → String) where
  -- What the result of a reclamation of the VPC says. Either terraform was given no command; or one
  -- instance of the VPC's listing was chosen, its tags were read and prove that the health check of
  -- another run made it, and the commands are those of its deletion, in its own workspace.
  pub data IsProven (vpc_id run_id : String) (before : List Command)
      : Reclaimed → List Command → Type 0 where
    nothing_given :
        (reason : String)
        → ((api_url == "" || token == "") ≡ true)
          ⊎ ((is_ : List InventoryInstance) × (list_vpc_instances text_of fetch true base vpc_id
                ≡ some is_)
              × (select_oldest_reclaimable is_ run_id ≡ none))
        → IsProven vpc_id run_id before
            (record { success = false; instance_id = ""; reason = reason })
            before
    chosen :
        (i : InventoryInstance) (is_ : List InventoryInstance) (r : Reclaimed)
        (given : List Command)
        → list_vpc_instances text_of fetch true base vpc_id ≡ some is_
        → select_oldest_reclaimable is_ run_id ≡ some i
        → fetch (tags_url text_of fetch base vpc_id i.instance_id) ≢ none
        → IsReclaimable run_id i
        → r.instance_id ≡ i.instance_id
        → IsDeletion tf (reclaim_root i.instance_id) i.instance_id before r.success given
        → IsProven vpc_id run_id before r given

  concluded_lem :
      (instance_id : String) (done : Bool × World)
      → ((concluded text_of fetch tf api_url base token reclaim_root instance_id done).0.success
          ≡ done.0)
        × ((concluded text_of fetch tf api_url base token reclaim_root instance_id
              done).0.instance_id
            ≡ instance_id)
        × ((concluded text_of fetch tf api_url base token reclaim_root instance_id done).1.given
            ≡ done.1.given)
  unfolding concluded emit
  concluded_lem instance_id (true, w) = (refl, refl, refl)
  concluded_lem instance_id (false, w) = (refl, refl, refl)

  chosen_lem :
      (vpc_id run_id : String) (is_ : List InventoryInstance) (w : World)
      → list_vpc_instances text_of fetch true base vpc_id ≡ some is_
      → (o : Option InventoryInstance) → select_oldest_reclaimable is_ run_id ≡ o
      → let done : Reclaimed × World =
          reclaim_chosen text_of fetch tf api_url base token reclaim_root o w in
        IsProven vpc_id run_id w.given done.0 done.1.given
  unfolding reclaim_chosen emit
  chosen_lem vpc_id run_id is_ w e none s = IsProven.nothing_given _ (inr (is_, e, s))
  chosen_lem vpc_id run_id is_ w e (some i) s =
      let started : World = emit reclaim_stage "started" "" w in
      let done : Bool × World =
        terraform_reclaim_import_destroy tf reclaim_stage i.instance_id (reclaim_root i.instance_id)
          started in
      let (there, able, first) = (select_iff is_ run_id).1 i s in
      let (read, own, tagged, other) = selected_proof text_of fetch base vpc_id is_ run_id i e s in
      let (ok_, same, given) = concluded_lem i.instance_id done in
      IsProven.chosen i is_ _ _ e s read able same (
        rw (ok_, given)
          (deletion_lem tf reclaim_stage i.instance_id (reclaim_root i.instance_id) started))

  listed_lem :
      (vpc_id run_id : String) (w : World) (l : Option (List InventoryInstance))
      → list_vpc_instances text_of fetch true base vpc_id ≡ l
      → (r : Reclaimed) (after : World)
      → reclaim_listed text_of fetch tf api_url base token reclaim_root run_id l w ≡ some (r, after)
      → IsProven vpc_id run_id w.given r after.given
  unfolding reclaim_listed
  listed_lem vpc_id run_id w none e r after h = cc
  listed_lem vpc_id run_id w (some is_) e r after h =
      let same : Path (Reclaimed × World)
          (reclaim_chosen text_of fetch tf api_url base token reclaim_root
            (select_oldest_reclaimable is_ run_id) w)
          (r, after) =
        cc in
      subst (λ p. IsProven vpc_id run_id w.given p.0 p.1.given) same
        (chosen_lem vpc_id run_id is_ w e (select_oldest_reclaimable is_ run_id) refl)

  unset_lem :
      (vpc_id run_id : String) (w v after : World) (reason : String) (r : Reclaimed)
      → v.given ≡ w.given
      → (api_url == "" || token == "") ≡ true
      → Path (Reclaimed × World) (refused "" reason, v) (r, after)
      → IsProven vpc_id run_id w.given r after.given
  unset_lem vpc_id run_id w v after reason r e unset h =
      subst (λ p. IsProven vpc_id run_id w.given p.0 p.1.given) h
        (rw e (IsProven.nothing_given reason (inl unset)))

  -- However a reclamation ends, terraform was given no command (where the address or the token is
  -- unset, or the listing has nothing to reclaim), or those that delete one instance of the VPC's
  -- listing: the one that is selected, whose tags were read and prove that the health check of
  -- another run made it. They stop at the first that fails, the destruction comes after the import
  -- of that instance, and success is reported exactly if it succeeds.
  pub reclaim_lem :
      (vpc_id run_id : String) (w after : World) (r : Reclaimed)
      → reclaim_health_check_instance text_of fetch tf api_url base token reclaim_root vpc_id run_id
          w
        ≡ some (r, after)
      → IsProven vpc_id run_id w.given r after.given
  unfolding emit reclaim_health_check_instance
  reclaim_lem vpc_id run_id w after r h = elim (Bool-cases (api_url == "" || token == "")) [
    | inl unset ↦
        unset_lem vpc_id run_id w (emit reclaim_stage "failed" "health_check_instance_not_found" w)
          after "missing_api_url_or_token" r refl unset
          (let e = rw (reclaim_health_check_instance, unset) at h in cc)
    | inr set ↦
        listed_lem vpc_id run_id (emit reclaim_stage "started" "" w)
          (list_vpc_instances text_of fetch true base vpc_id) refl r after
          (rw (reclaim_health_check_instance, set) at h)
  ]
