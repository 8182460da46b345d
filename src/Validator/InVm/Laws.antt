-- ===== src/Validator/InVm/Laws.antt =====
-- When an in-VM probe passes, and which failures are inconclusive.
use mathlib.Core.Path.{subst}
use Prim.Native.String.{◌++◌ as text_append}
use fptcloud_hc_automation_m.Base.{
  ℕ, String, Bool, ◌⊎◌, sym, ap, strip, true, false, Option, none, some, ◌≡◌, ◌≢◌, ◌↔◌, inl, inr,
  refl, arith, ◌==◌, if◌then◌else◌, Bool-cases, codes, lower, within,
}
use fptcloud_hc_automation_m.Queue.Json.{str}
use fptcloud_hc_automation_m.Validator.Model.{
  pass, fail, inconclusive, ExpectedAssertion, Runtime, TfState,
}
use fptcloud_hc_automation_m.Validator.Match.{Meets, string_match_iff}
use fptcloud_hc_automation_m.Validator.InVm.{
  Transport, ssh, winrm, Connection, ProbeOutput, ProbeError, auth_error, connection_error,
  config_error, dependency_missing, ◌>>=◌, Raw, client_error, no_client, Result, ok, raised,
  resolve_connection, build_command, run_probe, evaluate_output, error_result, evaluate_in_vm,
  settled, exit_ok, stdout_ok, given, in_vm_transport, connection_to, default_port, or_default,
  raw_error, ssh_error, winrm_error, missing_client, plain_command, file_command, or_text, combine,
  finished, resolved_host, text_or, windows_host,
}

bind_ok {ℓ κ} :
    {A : Type ℓ} {B : Type κ} {b : B} (r : Result A) (f : A → Result B)
    → (r >>= f) ≡ ok b
    → (a : A) × (r ≡ ok a) × (f a ≡ ok b)
bind_ok (ok a) f e = (a, refl, e)
bind_ok (raised x) f e = cc

text_some : (o : Option String) → (text_or o "" == "") ≡ false → o ≡ some (text_or o "")
text_some none e = ground arith
text_some (some s) e = elim (Bool-cases (s == "")) [
  | inl empty ↦ cc (rw empty at e)
  | inr kept ↦ rw kept refl
]

-- The two streams as one text.
abbrev pub joined : String → String → String
joined stdout stderr =
    if stderr == "" then stdout else strip (text_append stdout (text_append "\n" stderr))

-- The command: the file test, or else the command or the probe of the assertion.
abbrev pub IsCommand : ExpectedAssertion → Transport → String → Type 0
IsCommand a t s =
    ((given a.file_exists ≡ true) × (s ≡ file_command t (text_or a.file_exists "")))
    ⊎ ((given a.file_exists ≡ false) × (or_text a.command a.probe ≡ some s) × ((s == "") ≡ false))

plain_iff :
    (o : Option String) (s : String)
    → (plain_command (or_text o none) ≡ ok s) ↔ ((o ≡ some s) × ((s == "") ≡ false))
unfolding plain_command
plain_iff none s = (λ h. absurd (cc h), λ h. absurd (cc (h.0)))
plain_iff (some t) s = elim (Bool-cases (t == "")) [
  | inl empty ↦ (
    λ h. absurd (let k = rw empty at h in cc),
    λ h.
        absurd
          (let k : t ≡ s = cc (h.0) in let e : (s == "") ≡ true = rw k at empty in cc (e, h.1)),
  )
  | inr kept ↦ (
    λ h.
        let k : Path (Result String) (ok t) (ok s) = rw kept at h in
        let e : t ≡ s = cc in (ap some e, rw e at kept),
    λ h. rw kept (let e : t ≡ s = cc (h.0) in ap ok e),
  )
]

build_command-IsCommand :
    (a : ExpectedAssertion) (t : Transport) (s : String)
    → (build_command a t ≡ ok s) ↔ IsCommand a t s
unfolding build_command
build_command-IsCommand a t s = elim (Bool-cases (given a.file_exists)) [
  | inl file ↦ (
    λ h.
        let k : Path (Result String) (ok (file_command t (text_or a.file_exists ""))) (ok s) =
          rw file at h in
        inl (file, let e : file_command t (text_or a.file_exists "") ≡ s = cc in sym e),
    λ m. elim m [ inl x ↦ rw file (ap ok (sym x.1)) | inr x ↦ absurd (cc (file, x.0)) ],
  )
  | inr none_ ↦
      let (sound, complete) = plain_iff (or_text a.command a.probe) s in
      (
        λ h. let (x, y) = sound (rw none_ at h) in inr (none_, x, y),
        λ m. elim m [ inl x ↦ absurd (cc (none_, x.0)) | inr x ↦ rw none_ (complete (x.1, x.2)) ],
      )
]

abbrev pub is_auth : ProbeError → Bool
is_auth (auth_error m) = true
is_auth _ = false

module _ (py : Runtime) where
  -- What an assertion asks of a probe's output.
  pub record OutputMeets (out : ProbeOutput) (a : ExpectedAssertion) : Type 0 where
    pub exits : exit_ok a.exit_code out.exit_code ≡ true
    pub finds : given a.file_exists ≡ true → within (codes "true") (lower out.stdout) ≡ true
    pub prints : stdout_ok a.stdout_contains out.stdout ≡ true
    pub meets : Meets py (str out.stdout) a

  output_iff :
      (out : ProbeOutput) (a : ExpectedAssertion)
      → ((evaluate_output py out a).verdict ≡ pass) ↔ OutputMeets out a
  unfolding evaluate_output
  output_iff out a =
      let ((sound, complete), two) = string_match_iff py (str out.stdout) a in
      (
        λ h. record {
          exits = ground arith;
          finds = λ f. ground arith;
          prints = ground arith;
          meets = sound (ground arith);
        },
        λ m. ground (arith, m.exits, m.finds, m.prints, complete m.meets),
      )

  run_iff :
      (c : Connection) (raw : Raw) (out : ProbeOutput)
      → (run_probe py c raw ≡ ok out) ↔ (
          (stdout stderr : String) × (code : ℕ) × (raw ≡ finished stdout stderr code)
          × (out ≡ record { stdout = joined stdout stderr; exit_code = code }))
  unfolding run_probe combine
  run_iff c (finished x y n) out = (
    λ h.
        let same : Path ProbeOutput (record { stdout = joined x y; exit_code = n }) out = cc in
        (x, y, n, refl, sym same),
    λ (p, q, m, e, f).
        let a : x ≡ p = cc in let b : y ≡ q = cc in let d : n ≡ m = cc in rw (f, a, b, d) refl,
  )
  run_iff c (client_error k t) out = (λ h. absurd (cc h), λ (p, q, m, e, f). absurd (cc e))
  run_iff c (no_client t) out = (λ h. absurd (cc h), λ (p, q, m, e, f). absurd (cc e))

  error_not_pass : (a : ExpectedAssertion) (e : ProbeError) → (error_result py a e).verdict ≢ pass
  unfolding error_result
  error_not_pass a (auth_error m) h = ground arith
  error_not_pass a (connection_error m) h = ground arith
  error_not_pass a (config_error m) h = ground arith
  error_not_pass a (dependency_missing m) h = ground arith

  -- A chain of the three steps passes exactly if each gives a value and the last output passes.
  module _ (a : ExpectedAssertion) where
    last_iff :
        (r : Result ProbeOutput)
        → ((settled py a r).verdict ≡ pass)
          ↔ ((out : ProbeOutput) × (r ≡ ok out) × OutputMeets out a)
    last_iff (raised e) = (λ h. absurd (error_not_pass a e h), λ (out, r, m). cc)
    last_iff (ok out) = (
      λ h. (out, refl, (output_iff out a).0 h),
      λ (o, r, m).
          let same : o ≡ out = cc in (output_iff out a).1 (subst (λ x. OutputMeets x a) same m),
    )

    chain_iff :
        (rc : Result Connection) (rb : Connection → Result String)
        (rp : Connection → String → Result ProbeOutput)
        → ((settled py a (rc >>= λ c. rb c >>= λ s. rp c s)).verdict ≡ pass) ↔ (
            (c : Connection) × (command : String) × (out : ProbeOutput) × (rc ≡ ok c)
            × (rb c ≡ ok command)
            × (rp c command ≡ ok out)
            × OutputMeets out a)
    chain_iff rc rb rp =
        let (sound, complete) = last_iff (rc >>= λ c. rb c >>= λ s. rp c s) in
        (
          λ h.
              let (out, e, m) = sound h in
              let (c, e1, f) = bind_ok rc (λ c. rb c >>= λ s. rp c s) e in
              let (command, e2, e3) = bind_ok (rb c) (rp c) f in (c, command, out, e1, e2, e3, m),
          λ (c, command, out, e1, e2, e3, m). rw (e1, e2, e3) ((output_iff out a).1 m),
        )

  -- A connection is only made to a named host, over the transport of the assertion or of the task,
  -- and on that transport's port unless the assertion gives another than 0.
  pub resolve_connection_lem :
      (task_os : String) (st : Option TfState) (a : ExpectedAssertion) (c : Connection)
      → resolve_connection py task_os st a ≡ ok c
      → ((c.host == "") ≡ false)
        × (resolved_host py st a ≡ some c.host)
        × (c.transport ≡ in_vm_transport task_os a)
        × (c.port ≡ or_default a.port (default_port py (in_vm_transport task_os a)))
  unfolding resolve_connection connection_to
  resolve_connection_lem task_os st a c e =
      elim (Bool-cases (text_or (resolved_host py st a) "" == "")) [
        | inl no_host ↦ cc (rw no_host at e)
        | inr has_host ↦
            let f = rw has_host at e in
            let t = in_vm_transport task_os a in
            let g : connection_to py t st a (text_or (resolved_host py st a) "") ≡ c = cc in
            subst
              (λ x.
                ((x.host == "") ≡ false)
                × (resolved_host py st a ≡ some x.host)
                × (x.transport ≡ t)
                × (x.port ≡ or_default a.port (default_port py t)))
              g (has_host, text_some (resolved_host py st a) has_host, refl, refl)
      ]

  -- The connection of a named host.
  pub record IsConnection (task_os : String) (st : Option TfState) (a : ExpectedAssertion)
      (c : Connection) : Type 0 where
    pub has_host : (c.host == "") ≡ false
    pub host_resolved : resolved_host py st a ≡ some c.host
    pub of_host : c ≡ connection_to py (in_vm_transport task_os a) st a c.host

  resolve_connection-IsConnection :
      (task_os : String) (st : Option TfState) (a : ExpectedAssertion) (c : Connection)
      → (resolve_connection py task_os st a ≡ ok c) ↔ IsConnection task_os st a c
  unfolding resolve_connection connection_to
  resolve_connection-IsConnection task_os st a c = (
    λ e. elim (Bool-cases (text_or (resolved_host py st a) "" == "")) [
      | inl no_host ↦ absurd (let f = rw no_host at e in cc)
      | inr has_host ↦
          let f = rw has_host at e in
          let host = text_or (resolved_host py st a) "" in
          let g : connection_to py (in_vm_transport task_os a) st a host ≡ c = cc in
          subst (IsConnection task_os st a) g (record {
            has_host = has_host;
            host_resolved = text_some (resolved_host py st a) has_host;
            of_host = refl;
          })
    ],
    λ m.
        let host : text_or (resolved_host py st a) "" ≡ c.host =
          rw (m.host_resolved, m.has_host) refl in
        rw (host, m.has_host) (ap ok (sym m.of_host)),
  )

  error_verdict :
      (a : ExpectedAssertion) (transport : Transport) (class_name message : String)
      → is_auth (raw_error py transport class_name message) ≡ false
      → (error_result py a (raw_error py transport class_name message)).verdict
        ≡ (if windows_host py a then fail else inconclusive)
  unfolding error_result raw_error ssh_error winrm_error
  error_verdict a ssh class_name message n = ground arith
  error_verdict a winrm class_name message n = ground arith

  module _ (probe : Connection → String → Raw) (task_os : String) (st : Option TfState)
      (a : ExpectedAssertion) where
    -- Without a configured runner a probe passes exactly if a host is found that is not empty, a
    -- command is, the client at that host finishes the command, and the exit code, the file test
    -- and the joined streams that it gives meet the assertion.
    pub evaluate_in_vm_iff : ((evaluate_in_vm py none probe task_os st a).verdict ≡ pass) ↔ (
        (c : Connection) × (command stdout stderr : String) × (code : ℕ) × IsConnection task_os st a
          c
        × IsCommand a c.transport command
        × (probe c command ≡ finished stdout stderr code)
        × OutputMeets (record { stdout = joined stdout stderr; exit_code = code }) a)
    unfolding evaluate_in_vm
    evaluate_in_vm_iff =
        let (sound, complete) =
          chain_iff a (resolve_connection py task_os st a) (λ c. build_command a c.transport)
            (λ c command. run_probe py c (probe c command)) in
        (
          λ h.
              let (c, command, out, e1, e2, e3, m) = sound h in
              let (stdout, stderr, code, f, g) = (run_iff c (probe c command) out).0 e3 in
              (
                c,
                command,
                stdout,
                stderr,
                code,
                (resolve_connection-IsConnection task_os st a c).0 e1,
                (build_command-IsCommand a c.transport command).0 e2,
                f,
                subst (λ x. OutputMeets x a) g m,
              ),
          λ (c, command, stdout, stderr, code, k, l, f, m). complete (
            c,
            command,
            record { stdout = joined stdout stderr; exit_code = code },
            (resolve_connection-IsConnection task_os st a c).1 k,
            (build_command-IsCommand a c.transport command).1 l,
            (run_iff c (probe c command) _).1 (stdout, stderr, code, f, refl),
            m,
          ),
        )

    -- Once a connection and a command are found, a missing client of SSH is inconclusive; an
    -- exception of the client that is not about authentication, as which a missing client of WinRM
    -- counts, fails where the assertion itself names Windows, and is inconclusive elsewhere.
    pub failed_probe_verdict :
        (c : Connection) (command : String)
        → resolve_connection py task_os st a ≡ ok c
        → build_command a c.transport ≡ ok command
        → ((reason : String)
            → c.transport ≡ ssh
            → probe c command ≡ no_client reason
            → (evaluate_in_vm py none probe task_os st a).verdict ≡ inconclusive)
          × ((class_name message : String)
              → probe c command ≡ client_error class_name message
              → is_auth (raw_error py c.transport class_name message) ≡ false
              → (evaluate_in_vm py none probe task_os st a).verdict
                ≡ (if windows_host py a then fail else inconclusive))
    unfolding evaluate_in_vm run_probe error_result
    failed_probe_verdict c command e f = (
      λ reason t g. rw (e, f, g) (unfold missing_client in rw t refl),
      λ class_name message g n. rw (e, f, g) (error_verdict a c.transport class_name message n),
    )
