-- ===== src/Live/Cleanup/Laws.antt =====
-- When an instance is deleted.
use mathlib.Core.Path.{subst}
use fptcloud_hc_automation_m.Base.{
  String, Bool, true, false, not, Option, none, some, List, [], ◌∷◌, ◌++◌, ◌==◌, ◌≡◌, ◌↔◌, inl, inr,
  refl, arith, Bool-cases, mem, codes, within, ◌>>=◌, if◌then◌else◌, length, length-append, ◌+◌, ap,
}
use fptcloud_hc_automation_m.Queue.Json.{Json, str, Members, get, or_else}
use fptcloud_hc_automation_m.Live.{
  World, Terraform, Command, succeeds, answer, give, emit, queue_error, QueueItem, destroy, show,
  state_list,
}
use fptcloud_hc_automation_m.Live.Workspace.{
  state_resources, instance_id_from_state, instance_state_values, state_json,
}
use fptcloud_hc_automation_m.Live.Cleanup.{
  SafetyError, quota_cleanup_classifications, cleanup_safety_errors, emit_twice, destroyed, checked,
  cleanup_instance, when, is_empty,
}

none_when :
    (a b c d e f : Bool)
    → when a SafetyError.not_quota_cleanup
        ++ when b SafetyError.no_instance_id
        ++ when c SafetyError.not_managed
        ++ when d SafetyError.other_name
        ++ when e SafetyError.other_suffix
        ++ when f SafetyError.outside_run_root
      ≡ []
    → (a ≡ false) × (b ≡ false) × (c ≡ false) × (d ≡ false) × (e ≡ false) × (f ≡ false)
none_when false false false false false false h = (refl, refl, refl, refl, refl, refl)
none_when true b c d e f h = cc
none_when false true c d e f h = cc
none_when false false true d e f h = cc
none_when false false false true e f h = cc
none_when false false false false true f h = cc
none_when false false false false false true h = cc

false_of_not : (b : Bool) → not b ≡ false → b ≡ true
false_of_not b h = ground arith

module _ (text_of : Json → String) (suffix : String) (inside_run : String → Bool) where
  -- What is known of an instance that may be deleted: the reason is a quota, its id is known, the
  -- workspace's state has it under the name of the present run, whose suffix is in its resource's
  -- name, and the workspace is the run's.
  pub record IsOwn (values : Members)
      (workspace classification instance_id expected_name resource_name : String) : Type 0 where
    pub quota_reason : mem classification quota_cleanup_classifications ≡ true
    pub has_id : (instance_id == "") ≡ false
    pub managed : is_empty values ≡ false
    pub same_name : (text_of (or_else (get "name" values) (str "")) == expected_name) ≡ true
    pub same_suffix : within (codes suffix) (codes resource_name) ≡ true
    pub inside : inside_run workspace ≡ true

  pub safety_iff :
      (values : Members) (workspace classification instance_id expected_name resource_name : String)
      → (cleanup_safety_errors text_of suffix inside_run values workspace classification instance_id
            expected_name resource_name
          ≡ [])
        ↔ IsOwn values workspace classification instance_id expected_name resource_name
  unfolding cleanup_safety_errors
  safety_iff values workspace classification instance_id expected_name resource_name = (
    λ h.
        let (a, b, c, d, e, f) = none_when _ _ _ _ _ _ h in
        record {
          quota_reason = false_of_not _ a;
          has_id = b;
          managed = c;
          same_name = false_of_not _ d;
          same_suffix = false_of_not _ e;
          inside = false_of_not _ f;
        },
    λ m. rw (m.quota_reason, m.has_id, m.managed, m.same_name, m.same_suffix, m.inside) refl,
  )

module _ (text_of : Json → String) (suffix : String) (inside_run : String → Bool)
    (loads : String → Option Json) (lines : String → List String) (tf : Terraform)
    (enabled : Bool) where
  abbrev reads : String → List Command → List Command
  reads workspace g =
      record { workspace = workspace; operation = show }
      ∷ record { workspace = workspace; operation = state_list }
      ∷ record { workspace = workspace; operation = show }
      ∷ g

  -- The world after the id and the resources were read.
  abbrev pub listed : String → World → World
  listed workspace w =
      (state_resources text_of loads lines tf workspace
        (instance_id_from_state text_of loads lines tf workspace w).1).1

  -- What is read of the instance: its id, and its values in the state.
  pub record IsRead (workspace : String) (w : World) (values : Members) (instance_id : String)
      : Type 0 where
    pub id_read : (instance_id_from_state text_of loads lines tf workspace w).0 ≡ some instance_id
    pub values_read :
        (instance_state_values text_of loads lines tf workspace (listed workspace w)).0
        ≡ some values

  -- How a cleanup ends.
  pub data IsCleanup (workspace classification expected_name resource_name : String) (w : World)
      : Bool → World → Type 0 where
    disabled :
        (after : World)
        → enabled ≡ false
        → after.given
          ≡ record { workspace = workspace; operation = state_list }
            ∷ record { workspace = workspace; operation = show }
            ∷ w.given
        → after.error_queue ≡ w.error_queue
        → IsCleanup workspace classification expected_name resource_name w false after
    unsafe :
        (after : World) (values : Members) (instance_id : String)
        → enabled ≡ true
        → IsRead workspace w values instance_id
        → ¬ IsOwn text_of suffix inside_run values workspace classification instance_id
            expected_name resource_name
        → after.given ≡ reads workspace w.given
        → after.error_queue ≡ w.error_queue
        → IsCleanup workspace classification expected_name resource_name w false after
    given :
        (done : Bool) (after : World) (values : Members) (instance_id : String)
        → enabled ≡ true
        → IsRead workspace w values instance_id
        → IsOwn text_of suffix inside_run values workspace classification instance_id expected_name
            resource_name
        → succeeds
            (tf (reads workspace w.given) (record { workspace = workspace; operation = destroy }))
          ≡ done
        → after.given
          ≡ record { workspace = workspace; operation = destroy } ∷ reads workspace w.given
        → length after.error_queue ≡ length w.error_queue + (if done then 0 else 2)
        → IsCleanup workspace classification expected_name resource_name w done after

  -- What the destroy command leaves, after the commands `g` and with the errors `q`.
  destroyed_lem :
      (workspace name : String) (resources : List String) (w : World) (g : List Command)
      (q : List QueueItem)
      → w.given ≡ g
      → w.error_queue ≡ q
      → let done : Bool × World = destroyed tf workspace name resources w in
        (succeeds (tf g (record { workspace = workspace; operation = destroy })) ≡ done.0)
        × (done.1.given ≡ record { workspace = workspace; operation = destroy } ∷ g)
        × (length done.1.error_queue ≡ length q + (if done.0 then 0 else 2))
  unfolding destroyed emit_twice emit queue_error answer give
  destroyed_lem workspace name resources w g q e f =
      elim (Bool-cases (succeeds (tf g (record { workspace = workspace; operation = destroy })))) [
        | inl ok_ ↦ rw (e, ok_) (refl, refl, omega (arith, ap length f))
        | inr bad ↦
            rw (e, bad)
              (
                refl,
                refl,
                omega (
                  arith,
                  ap length f,
                  length-append w.error_queue,
                  length-append (w.error_queue ++ _ ∷ []),
                ),
              )
      ]

  checked_lem :
      (workspace name classification expected_name resource_name : String) (values : Members)
      (instance_id : String) (resources : List String) (w v : World) (es : List SafetyError)
      → enabled ≡ true
      → IsRead workspace w values instance_id
      → v.given ≡ reads workspace w.given
      → v.error_queue ≡ w.error_queue
      → cleanup_safety_errors text_of suffix inside_run values workspace classification instance_id
          expected_name resource_name
        ≡ es
      → let done : Bool × World = checked tf es workspace name resources v in
        IsCleanup workspace classification expected_name resource_name w done.0 done.1
  unfolding checked
  checked_lem workspace name classification expected_name resource_name values instance_id resources
        w v [] on known g q e =
      let (ok_, given_, errors) =
        destroyed_lem workspace name resources (emit_twice name "started" "" v)
          (reads workspace w.given) w.error_queue (unfold emit_twice emit in g)
          (unfold emit_twice emit in q) in
      IsCleanup.given _ _ values instance_id on known
        ((safety_iff text_of suffix inside_run values workspace classification instance_id
            expected_name resource_name).0
          e)
        ok_ given_ errors
  checked_lem workspace name classification expected_name resource_name values instance_id resources
        w v (_ ∷ _) on known g q e =
      IsCleanup.unsafe (emit_twice name "skipped" "instance_cleanup_not_allowed" v) values
        instance_id on known
        (λ own. cc (
          e,
          (safety_iff text_of suffix inside_run values workspace classification instance_id
                expected_name resource_name).1
              own,
        ))
        (unfold emit_twice emit in g) (unfold emit_twice emit in q)

  module _ (workspace name classification expected_name resource_name : String) (w : World) where
    -- The body after the three readings, with the worlds after two of them and after all.
    body : Option String → Option Members → List String → World → World → Option (Bool × World)
    body read values resources w2 w3 = read >>= (λ instance_id.
        if enabled
        then values >>= (λ vs. some (
            checked tf
              (cleanup_safety_errors text_of suffix inside_run vs workspace classification
                instance_id expected_name resource_name)
              workspace name resources w3))
        else some (false, emit_twice name "skipped" "instance_retained_by_policy" w2))

    values_lem :
        (values : Option Members) (resources : List String) (id : String) (w3 after : World)
        (done : Bool)
        → enabled ≡ true
        → (instance_id_from_state text_of loads lines tf workspace w).0 ≡ some id
        → (instance_state_values text_of loads lines tf workspace (listed workspace w)).0 ≡ values
        → w3.given ≡ reads workspace w.given
        → w3.error_queue ≡ w.error_queue
        → values >>= (λ vs. some (
            checked tf
              (cleanup_safety_errors text_of suffix inside_run vs workspace classification id
                expected_name resource_name)
              workspace
              name
              resources
              w3))
          ≡ some (done, after)
        → IsCleanup workspace classification expected_name resource_name w done after
    values_lem none resources id w3 after done on i k g q h = cc
    values_lem (some vs) resources id w3 after done on i k g q h =
        let same : Path (Bool × World)
            (checked tf
              (cleanup_safety_errors text_of suffix inside_run vs workspace classification id
                expected_name resource_name)
              workspace name resources w3)
            (done, after) =
          cc in
        subst (λ p. IsCleanup workspace classification expected_name resource_name w p.0 p.1) same
          (checked_lem workspace name classification expected_name resource_name vs id resources w
            w3 _ on (record { id_read = i; values_read = k }) g q refl)

    body_lem :
        (read : Option String) (values : Option Members) (resources : List String)
        (w2 w3 after : World) (done : Bool)
        → (instance_id_from_state text_of loads lines tf workspace w).0 ≡ read
        → (instance_state_values text_of loads lines tf workspace (listed workspace w)).0 ≡ values
        → w2.given
          ≡ record { workspace = workspace; operation = state_list }
            ∷ record { workspace = workspace; operation = show }
            ∷ w.given
        → w2.error_queue ≡ w.error_queue
        → w3.given ≡ reads workspace w.given
        → w3.error_queue ≡ w.error_queue
        → body read values resources w2 w3 ≡ some (done, after)
        → IsCleanup workspace classification expected_name resource_name w done after
    unfolding body emit_twice emit checked
    body_lem none values resources w2 w3 after done i k g2 q2 g3 q3 h = cc
    body_lem (some id) values resources w2 w3 after done i k g2 q2 g3 q3 h =
        elim (Bool-cases enabled) [
          | inr off ↦
              let left : World = emit_twice name "skipped" "instance_retained_by_policy" w2 in
              let same : Path (Bool × World) (false, left) (done, after) =
                let e = rw off at h in cc in
              subst (λ p. IsCleanup workspace classification expected_name resource_name w p.0 p.1)
                same (IsCleanup.disabled left off g2 q2)
          | inl on ↦
              values_lem values resources id w3 after done on i k g3 q3 (unfold body in rw on at h)
        ]

    -- A cleanup that ends gives terraform the destroy command exactly if it is enabled and the
    -- instance that is read from the workspace is the present run's own and fails for a quota; it
    -- says that it deleted the instance exactly if that command is given and succeeds, and leaves
    -- two errors in the queue if the command fails, none else.
    pub cleanup_lem :
        (after : World) (done : Bool)
        → cleanup_instance text_of suffix inside_run loads lines tf enabled workspace name
            classification expected_name resource_name w
          ≡ some (done, after)
        → IsCleanup workspace classification expected_name resource_name w done after
    unfolding cleanup_instance instance_id_from_state state_resources instance_state_values
        state_json give body
    cleanup_lem after done h =
        let (read, w1) = instance_id_from_state text_of loads lines tf workspace w in
        let (resources, w2) = state_resources text_of loads lines tf workspace w1 in
        let (values, w3) = instance_state_values text_of loads lines tf workspace w2 in
        body_lem read values resources w2 w3 after done refl refl refl refl refl refl h
