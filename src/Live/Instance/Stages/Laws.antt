-- ===== src/Live/Instance/Stages/Laws.antt =====
-- When the stages end as done.
use fptcloud_hc_automation_m.Base.{
  ℕ, ◌≤◌, String, Bool, true, not, ◌&&◌, Option, none, some, List, [], ◌∷◌, ◌≡◌, arith, keep, mem,
  length, min, ap, mem-count, count-keep,
}
use fptcloud_hc_automation_m.Stage.{StageSpec}
use fptcloud_hc_automation_m.Live.{World, Event}
use fptcloud_hc_automation_m.Live.Instance.Naming.{instance_image_matrix, guest_hostname_for_label}
use fptcloud_hc_automation_m.Live.Instance.Naming.Laws.{IsRandom, is_short}
use fptcloud_hc_automation_m.Live.Instance.Stages.{
  gate, HostnameEntry, hostname_entry, SelectedRound, select_instance_round_stage,
}

-- The newest event of a world.
abbrev pub newest : World → Option Event
newest w = elim w.events [ [] ↦ none | e ∷ es ↦ some e ]

abbrev pub done_event : String → Event
done_event id = record { stage = id; status = "done"; classification = "" }

keep_some :
    (p : String → Bool) (xs : List String) (l : String)
    → mem l (keep p xs) ≡ true
    → (mem l xs ≡ true) × (p l ≡ true)
keep_some p xs l h = (
  ground (arith, mem-count l (keep p xs), mem-count l xs, count-keep p l xs),
  ground (arith, mem-count l (keep p xs), mem-count l xs, count-keep p l xs),
)

module _ (resource_name_of random : String → String) (policy_length : String → ℕ)
    (matches : String → String → Bool) (good : (label : String) → IsRandom (random label))
    (short : (label : String)
      → mem label instance_image_matrix ≡ true
      → is_short (policy_length label) (guest_hostname_for_label (random label) label) ≡ true)
    (fine : (label : String)
      → mem label instance_image_matrix ≡ true
      → matches label (guest_hostname_for_label (random label) label) ≡ true) where
  abbrev entry : String → HostnameEntry
  entry = hostname_entry resource_name_of random policy_length matches

-- The selected round holds only labels of validated instances, in the configured order, and asks
-- for no more instances at once than is configured.
pub round_lem :
    (s : StageSpec) (labels order : List String) (discovered : String → Bool) (per_apply : ℕ)
    (w : World) (r : SelectedRound) (l : String)
    → (select_instance_round_stage s labels discovered order per_apply w).0 ≡ some r
    → (r.apply_requested_instance_count ≤ per_apply)
      × (mem l r.selected_images ≡ true → (mem l order ≡ true) × (mem l labels ≡ true))
unfolding select_instance_round_stage
round_lem s labels order discovered per_apply w r l h =
    go (gate "compute.select-instance-round" "instance_image_unresolved" s w) h
  where
    go :
        (o : Option String)
        → Path
            (Option SelectedRound)
            (elim o [
              | none ↦ some (record {
                instances_per_apply = per_apply;
                selected_images = keep (λ k. mem k labels) order;
                unavailable_images =
                    keep (λ k. not (mem k labels) && not (discovered k)) instance_image_matrix;
                apply_requested_instance_count =
                    min per_apply (length (keep (λ k. mem k labels) order));
              })
              | some c ↦ none
            ])
            (some r)
        → (r.apply_requested_instance_count ≤ per_apply)
          × (mem l r.selected_images ≡ true → (mem l order ≡ true) × (mem l labels ≡ true))
    go none h =
        let chosen = keep (λ k. mem k labels) order in
        let count_ : min per_apply (length chosen) ≡ r.apply_requested_instance_count =
          ap (λ o. elim o [ none ↦ 0 | some x ↦ x.apply_requested_instance_count ]) h in
        let images : chosen ≡ r.selected_images =
          ap (λ o. elim o [ none ↦ [] | some x ↦ x.selected_images ]) h in
        (
          rw (← count_) (omega arith),
          λ m. keep_some (λ k. mem k labels) order l (rw (← images) at m),
        )
    go (some c) h = cc
